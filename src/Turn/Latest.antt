-- ===== src/Turn/Latest.antt =====
-- cli/src/lib/agent-stream.ts: what a turn said last, and what a beat leaves alone.
use hisohiso.Prelude.{
  ℕ, ◌≡◌, refl, sym, ap, ◌∙◌, Bool, true, false, not, ◌&&◌, &&-true, Option, none, some, List, [],
  ◌∷◌, length, leb, ◌==◌, arith, Bool-cases, ◌-◌, inl, inr, if◌then◌else◌,
}
use hisohiso.Text.{Text, text_eq}
use hisohiso.Turn.Stream.{
  Event, session, assistant_text, tool_start, tool_end, result, error, Kind, tool, quiet, stuck,
  working, Status,
}
use hisohiso.Turn.Runner.{
  State, emit, apply_at, apply_event, apply_events, heartbeat, beat_alive, same_key, kind_eq, plain,
  stuck_after_ms, quiet_after_ms, seconds,
}
use hisohiso.Turn.RunnerLaws.{last_key_of, last_key_of-snoc}

-- The last key is the key of the last status.
abbrev pub Latest : State → Type 0
Latest st = st.last_key ≡ last_key_of st.sent

emit-Latest : (s : Status) (force : Bool) (st : State) → Latest st → Latest (emit s force st)
unfolding emit
emit-Latest s force st h = ground (arith, last_key_of-snoc st.sent s)

apply_at-Latest : (ev : Event) (st : State) → Latest st → Latest (apply_at ev st)
unfolding apply_at
apply_at-Latest (session id) st h = elim (Bool-cases (length id == 0)) [
  | inl blank ↦ rw blank h
  | inr named ↦ rw named h
]
apply_at-Latest assistant_text st h =
    emit-Latest (plain working) false (record st { current_tool = none }) h
apply_at-Latest (tool_start t) st h =
    emit-Latest (record { kind = tool; tool = some t; quiet_sec = none }) false
      (record st { current_tool = some t }) h
apply_at-Latest tool_end st h =
    emit-Latest (plain working) false (record st { current_tool = none }) h
apply_at-Latest (result t bad) st h = h
apply_at-Latest (error m) st h = h

pub apply_events-Latest :
    (now : ℕ) (evs : List Event) (st : State) → Latest st → Latest (apply_events now evs st)
unfolding apply_events apply_event
apply_events-Latest now [] st h = h
apply_events-Latest now (ev ∷ evs) st h =
    apply_events-Latest now evs (apply_event now ev st)
      (apply_at-Latest ev (record st { last_activity = now }) h)

-- What a beat leaves alone.
pub record Calm (st st' : State) : Type 0 where
  pub same_error : st'.is_error ≡ st.is_error
  pub same_results : st'.results ≡ st.results
  pub latest : Latest st → Latest st'

emit-Calm : (s : Status) (force : Bool) (st : State) → Calm st (emit s force st)
unfolding emit
emit-Calm s force st = record {
  same_error = ground arith;
  same_results = ground arith;
  latest = emit-Latest s force st;
}

pub unchanged : (st : State) → Calm st st
unchanged st = record { same_error = refl; same_results = refl; latest = λ h. h }

if-Calm : (b : Bool) (st x y : State) → Calm st x → Calm st y → Calm st (if b then x else y)
if-Calm true st x y h k = h
if-Calm false st x y h k = k

abbrev quiet_for : ℕ → Status
quiet_for ms = record { kind = quiet; tool = none; quiet_sec = some (seconds ms) }

beat_alive-Calm : (t : Option Text) (ms : ℕ) (st : State) → Calm st (beat_alive t ms st)
unfolding beat_alive
beat_alive-Calm none ms st =
    if-Calm (leb quiet_after_ms ms) st _ _ (emit-Calm (quiet_for ms) true st) (unchanged st)
beat_alive-Calm (some t) ms st =
    if-Calm (length t == 0) st _ _
      (if-Calm (leb quiet_after_ms ms) st _ _ (emit-Calm (quiet_for ms) true st) (unchanged st))
      (emit-Calm (record { kind = tool; tool = some t; quiet_sec = some (seconds ms) }) true st)

pub heartbeat-Calm : (now : ℕ) (st : State) → Calm st (heartbeat now st)
unfolding heartbeat
heartbeat-Calm now st =
    let ms : ℕ = now - st.last_activity in
    let s : Status = record {
      kind = stuck;
      tool = st.current_tool;
      quiet_sec = some (seconds ms);
    } in
    if-Calm st.finished st st _ (unchanged st) (
      if-Calm (leb stuck_after_ms ms) st (emit s true st) (beat_alive st.current_tool ms st)
        (emit-Calm s true st) (beat_alive-Calm st.current_tool ms st))

abbrev kind_in : Option (Kind × Text) → Option Kind
kind_in none = none
kind_in (some (k, t)) = some k

abbrev pub last_kind : List Status → Option Kind
last_kind ss = kind_in (last_key_of ss)

kind_eq_lem : (k l : Kind) → kind_eq k l ≡ true → k ≡ l
kind_eq_lem k l h = ground arith

same_key-kind_in :
    (key : Kind × Text) (o : Option (Kind × Text)) → same_key key o ≡ true → kind_in o ≡ some key.0
same_key-kind_in key none h = absurd (cc h)
same_key-kind_in (k, t) (some (l, u)) h =
    ap some (sym (kind_eq_lem k l (&&-true (kind_eq k l) (text_eq t u) h).0))

-- What is sent, or dropped as said already, is the last status.
pub emit-last_kind :
    (k : Kind) (st : State) → Latest st → last_kind (emit (plain k) false st).sent ≡ some k
unfolding emit
emit-last_kind k st h =
    let same : Bool = same_key (k, []) st.last_key in
    let calm : Bool = not (kind_eq k quiet) in
    let said : Bool = same && calm && not (kind_eq k stuck) in
    elim (Bool-cases said) [
      | inl e ↦
          let known : same ≡ true =
            (&&-true same calm (&&-true (same && calm) (not (kind_eq k stuck)) e).0).0 in
          rw e (ap kind_in (sym h) ∙ same_key-kind_in (k, []) st.last_key known)
      | inr e ↦ rw e (ap kind_in (last_key_of-snoc st.sent (plain k)))
    ]
