-- ===== src/Turn/RunnerLaws.antt =====
-- What a turn sends to the room and returns, over any stream of events.
use hisohiso.Prelude.{
  ℕ, ◌≡◌, refl, sym, ap, ◌∙◌, Bool, true, false, ◌||◌, Option, none, some, List, [], ◌∷◌, ◌++◌,
  length, ◌==◌, arith, any, Bool-cases, inl, inr, filter_map,
}
use mathlib.Core.List.{append-nil, append_assoc}
use hisohiso.Text.{Text}
use hisohiso.Turn.Stream.{
  Event, session, assistant_text, tool_start, tool_end, result, error, Kind, working, tool, quiet,
  stuck, Status,
}
use hisohiso.Turn.Runner.{
  State, emit, apply_at, apply_event, apply_events, key_of, same_key, plain, begin, kind_eq,
}

-- The last key that was sent is the key of the last status.
abbrev pub last_key_of : List Status → Option (Kind × Text)
last_key_of [] = none
last_key_of (s ∷ []) = some (key_of s)
last_key_of (s ∷ t ∷ ss) = last_key_of (t ∷ ss)

-- No status repeats the one before it.
abbrev pub NoRepeat : List Status → Type 0
NoRepeat [] = Unit
NoRepeat (s ∷ []) = Unit
NoRepeat (s ∷ t ∷ ss) = (same_key (key_of t) (some (key_of s)) ≡ false) × NoRepeat (t ∷ ss)

pub record Fresh (st : State) : Type 0 where
  pub latest : st.last_key ≡ last_key_of st.sent
  pub no_repeat : NoRepeat st.sent

pub last_key_of-snoc :
    (ss : List Status) (s : Status) → last_key_of (ss ++ (s ∷ [])) ≡ some (key_of s)
last_key_of-snoc [] s = refl
last_key_of-snoc (t ∷ []) s = refl
last_key_of-snoc (t ∷ u ∷ ss) s = last_key_of-snoc (u ∷ ss) s

NoRepeat-snoc :
    (ss : List Status) (s : Status)
    → same_key (key_of s) (last_key_of ss) ≡ false
    → NoRepeat ss
    → NoRepeat (ss ++ (s ∷ []))
NoRepeat-snoc [] s new h = tt
NoRepeat-snoc (t ∷ []) s new h = (new, tt)
NoRepeat-snoc (t ∷ u ∷ ss) s new h = (h.0, NoRepeat-snoc (u ∷ ss) s new h.1)

-- A status that is neither quiet nor stuck and is not forced keeps the row free of repetitions.
emit-Fresh :
    (s : Status) (st : State)
    → kind_eq s.kind quiet ≡ false
    → kind_eq s.kind stuck ≡ false
    → Fresh st
    → Fresh (emit s false st)
unfolding emit
emit-Fresh s st q k h = elim (Bool-cases (same_key (key_of s) st.last_key)) [
  | inl same ↦ simp (same, q, k) h
  | inr new ↦
      simp (new, q, k)
        (record {
          latest = sym (last_key_of-snoc st.sent s);
          no_repeat = NoRepeat-snoc st.sent s (rw h.latest at new) h.no_repeat;
        })
]

apply_at-Fresh : (ev : Event) (st : State) → Fresh st → Fresh (apply_at ev st)
unfolding apply_at
apply_at-Fresh (session id) st h = elim (Bool-cases (length id == 0)) [
  | inl blank ↦ rw blank h
  | inr named ↦ rw named (record { latest = h.latest; no_repeat = h.no_repeat })
]
apply_at-Fresh assistant_text st h =
    emit-Fresh (plain working) (record st { current_tool = none }) refl refl
      (record { latest = h.latest; no_repeat = h.no_repeat })
apply_at-Fresh (tool_start t) st h =
    emit-Fresh (record { kind = tool; tool = some t; quiet_sec = none })
      (record st { current_tool = some t }) refl refl
      (record { latest = h.latest; no_repeat = h.no_repeat })
apply_at-Fresh tool_end st h =
    emit-Fresh (plain working) (record st { current_tool = none }) refl refl
      (record { latest = h.latest; no_repeat = h.no_repeat })
apply_at-Fresh (result t bad) st h = record { latest = h.latest; no_repeat = h.no_repeat }
apply_at-Fresh (error m) st h = record { latest = h.latest; no_repeat = h.no_repeat }

-- However many events of one kind a stream holds, the turn never sends two like statuses in a row:
-- after any events, from a state where this holds, it holds again.
pub apply_events-Fresh :
    (now : ℕ) (evs : List Event) (st : State) → Fresh st → Fresh (apply_events now evs st)
unfolding apply_events apply_event
apply_events-Fresh now [] st h = h
apply_events-Fresh now (ev ∷ evs) st h = apply_events-Fresh now evs (apply_event now ev st) (
    apply_at-Fresh ev (record st { last_activity = now })
      (record { latest = h.latest; no_repeat = h.no_repeat }))

pub begin-Fresh : (now : ℕ) → Fresh (begin now)
unfolding begin
begin-Fresh now = record { latest = refl; no_repeat = tt }

-- What a stream says about failure and results, read off the events alone.
abbrev pub is_bad : Event → Bool
is_bad (result t bad) = bad
is_bad (error m) = true
is_bad ev = false

abbrev pub answer : Event → Option Text
answer (result [] bad) = none
answer (result (c ∷ t) bad) = some (c ∷ t)
answer ev = none

apply_event-is_error :
    (now : ℕ) (ev : Event) (st : State)
    → (apply_event now ev st).is_error ≡ (st.is_error || is_bad ev)
unfolding apply_event
apply_event-is_error now (session id) st = ground arith
apply_event-is_error now assistant_text st = ground arith
apply_event-is_error now (tool_start t) st = ground arith
apply_event-is_error now tool_end st = ground arith
apply_event-is_error now (result t bad) st = ground arith
apply_event-is_error now (error m) st = ground arith

pub apply_events-is_error :
    (now : ℕ) (evs : List Event) (st : State)
    → (apply_events now evs st).is_error ≡ (st.is_error || any is_bad evs)
unfolding apply_events
apply_events-is_error now [] st = ground arith
apply_events-is_error now (ev ∷ evs) st =
    ground
      (arith, apply_events-is_error now evs (apply_event now ev st), apply_event-is_error now ev st)

apply_event-results :
    (now : ℕ) (ev : Event) (st : State)
    → (apply_event now ev st).results ≡ st.results ++ filter_map answer (ev ∷ [])
unfolding apply_event
apply_event-results now (session []) st = sym (append-nil st.results)
apply_event-results now (session (c ∷ id)) st = ground (arith, append-nil st.results)
apply_event-results now assistant_text st = ground (arith, append-nil st.results)
apply_event-results now (tool_start t) st = ground (arith, append-nil st.results)
apply_event-results now tool_end st = ground (arith, append-nil st.results)
apply_event-results now (result [] bad) st = sym (append-nil st.results)
apply_event-results now (result (c ∷ t) bad) st = ground arith
apply_event-results now (error m) st = sym (append-nil st.results)

filter_map-cons :
    (ev : Event) (evs : List Event)
    → filter_map answer (ev ∷ evs) ≡ filter_map answer (ev ∷ []) ++ filter_map answer evs
filter_map-cons ev evs = ground arith

pub apply_events-results :
    (now : ℕ) (evs : List Event) (st : State)
    → (apply_events now evs st).results ≡ st.results ++ filter_map answer evs
unfolding apply_events
apply_events-results now [] st = sym (append-nil st.results)
apply_events-results now (ev ∷ evs) st =
    apply_events-results now evs (apply_event now ev st)
    ∙ ap (λ l. l ++ filter_map answer evs) (apply_event-results now ev st)
    ∙ append_assoc st.results (filter_map answer (ev ∷ [])) (filter_map answer evs)
    ∙ ap (λ l. st.results ++ l) (sym (filter_map-cons ev evs))

abbrev pub is_stuck : Status → Bool
is_stuck s = kind_eq s.kind stuck
