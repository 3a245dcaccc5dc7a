-- ===== src/Turn/Beats.antt =====
-- cli/src/lib/agent-stream.ts: what a beat of the heartbeat sends.
use mathlib.Core.List.{append-nil}
use hisohiso.Prelude.{
  ℕ, ◌-◌, ◌≡◌, refl, sym, ◌∙◌, Bool, true, false, not, ◌&&◌, Option, none, some, List, [], ◌∷◌,
  ◌++◌, length, leb, ◌==◌, arith, any, All, if◌then◌else◌, Bool-cases, inl, inr,
}
use hisohiso.Text.{Text}
use hisohiso.Turn.Stream.{
  Event, session, assistant_text, tool_start, tool_end, result, error, tool, quiet, stuck, Status,
}
use hisohiso.Turn.Runner.{
  State, emit, apply_event, heartbeat, beat_alive, kind_eq, seconds, stuck_after_ms, quiet_after_ms,
  or_empty,
}

abbrev pub is_stuck : Status → Bool
is_stuck s = kind_eq s.kind stuck

last_activity-apply_event :
    (now : ℕ) (ev : Event) (st : State)
    → ((apply_event now ev st).last_activity ≡ now)
      × ((apply_event now ev st).finished ≡ st.finished)
unfolding apply_event
last_activity-apply_event now (session id) st = ground arith
last_activity-apply_event now assistant_text st = ground arith
last_activity-apply_event now (tool_start t) st = ground arith
last_activity-apply_event now tool_end st = ground arith
last_activity-apply_event now (result t bad) st = ground arith
last_activity-apply_event now (error m) st = ground arith

-- The statuses that a beat adds below the stuck window, and those that it adds at all.
abbrev added_alive : Option Text → ℕ → List Status
added_alive none ms =
    if leb quiet_after_ms ms
    then record { kind = quiet; tool = none; quiet_sec = some (seconds ms) } ∷ []
    else []
added_alive (some []) ms =
    if leb quiet_after_ms ms
    then record { kind = quiet; tool = none; quiet_sec = some (seconds ms) } ∷ []
    else []
added_alive (some (c ∷ t)) ms =
    record { kind = tool; tool = some (c ∷ t); quiet_sec = some (seconds ms) } ∷ []

abbrev added : Bool → Option Text → ℕ → List Status
added over t ms =
    if over
    then []
    else if leb stuck_after_ms ms
    then record { kind = stuck; tool = t; quiet_sec = some (seconds ms) } ∷ []
    else added_alive t ms

-- Of the statuses of a beat: at most one, one after the quiet window, stuck exactly after the stuck
-- window, and each on the running tool.
pub record Report (over : Bool) (t : Option Text) (ms : ℕ) (ss : List Status) : Type 0 where
  pub one : leb (length ss) 1 ≡ true
  pub some_news : (not over && leb quiet_after_ms ms && length ss == 0) ≡ false
  pub says_stuck : any is_stuck ss ≡ (not over && leb stuck_after_ms ms)
  pub on_tool : All (λ s. or_empty s.tool ≡ or_empty t) ss

beat_alive-added :
    (t : Option Text) (ms : ℕ) (st : State)
    → (beat_alive t ms st).sent ≡ st.sent ++ added_alive t ms
unfolding beat_alive emit
beat_alive-added none ms st = ground (arith, append-nil st.sent)
beat_alive-added (some []) ms st = ground (arith, append-nil st.sent)
beat_alive-added (some (c ∷ t)) ms st = ground (arith, append-nil st.sent)

heartbeat-added :
    (now : ℕ) (st : State)
    → (heartbeat now st).sent
      ≡ st.sent ++ added st.finished st.current_tool (now - st.last_activity)
unfolding heartbeat emit
heartbeat-added now st =
    ground (arith, append-nil st.sent, beat_alive-added st.current_tool (now - st.last_activity) st)

quiet-Report :
    (t : Option Text) (ms : ℕ)
    → or_empty t ≡ []
    → leb stuck_after_ms ms ≡ false
    → Report false t ms (
        if leb quiet_after_ms ms
        then record { kind = quiet; tool = none; quiet_sec = some (seconds ms) } ∷ []
        else [])
quiet-Report t ms n h = elim (Bool-cases (leb quiet_after_ms ms)) [
  | inl long ↦
      rw long
        (record { one = refl; some_news = ground arith; says_stuck = sym h; on_tool = (sym n, tt) })
  | inr short ↦
      rw short
        (record { one = refl; some_news = ground (arith, short); says_stuck = sym h; on_tool = tt })
]

added_alive-Report :
    (t : Option Text) (ms : ℕ)
    → leb stuck_after_ms ms ≡ false
    → Report false t ms (added_alive t ms)
added_alive-Report none ms h = quiet-Report none ms refl h
added_alive-Report (some []) ms h = quiet-Report (some []) ms refl h
added_alive-Report (some (c ∷ t)) ms h = record {
  one = refl;
  some_news = ground arith;
  says_stuck = sym h;
  on_tool = (refl, tt);
}

added-Report : (over : Bool) (t : Option Text) (ms : ℕ) → Report over t ms (added over t ms)
added-Report true t ms = record { one = refl; some_news = refl; says_stuck = refl; on_tool = tt }
added-Report false t ms = elim (Bool-cases (leb stuck_after_ms ms)) [
  | inl long ↦
      rw long (record {
        one = refl;
        some_news = ground arith;
        says_stuck = sym long;
        on_tool = (refl, tt);
      })
  | inr short ↦ rw short (added_alive-Report t ms short)
]

-- A beat of the heartbeat after an event adds at most one status. While the turn runs it adds one once
-- nothing has come for the quiet window since that event, and whatever was sent before, it adds a
-- stuck one exactly when the turn runs and nothing has come for the stuck window, with a running tool
-- too. A status names the tool that is running, and none if there is none.
pub heartbeat-apply_event :
    (now beat : ℕ) (ev : Event) (st : State)
    → let st' = apply_event now ev st in
      (new : List Status) × ((heartbeat beat st').sent ≡ st'.sent ++ new)
      × Report st.finished st'.current_tool (beat - now) new
heartbeat-apply_event now beat ev st =
    let st' : State = apply_event now ev st in
    let (active, over) = last_activity-apply_event now ev st in
    let new : List Status = added st.finished st'.current_tool (beat - now) in
    (
      new,
      heartbeat-added beat st'
          ∙ (λ i. st'.sent ++ added (over i) st'.current_tool (beat - active i)),
      added-Report st.finished st'.current_tool (beat - now),
    )
