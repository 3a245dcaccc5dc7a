-- ===== src/Turn/Runner.antt =====
-- cli/src/lib/agent-stream.ts: `runStreamingTurn`. The closures' variables are the state; a line of
-- output, a beat of the heartbeat and the exit of the process are steps. Times are milliseconds of
-- `Date.now()`; the statuses handed to `onStatus` are the list `sent`, the latest last.
use hisohiso.Prelude.{
  ℕ, ◌+◌, ◌-◌, ◌/◌, Bool, true, false, not, ◌&&◌, ◌||◌, Option, none, some, List, [], ◌∷◌, ◌++◌,
  length, leb, ◌==◌, if◌then◌else◌,
}
use hisohiso.Text.{Text, text_eq, trim, join}
use hisohiso.Json.{Json}
use hisohiso.Turn.Stream.{
  Event, session, assistant_text, tool_start, tool_end, result, error, Kind, starting, working,
  tool, quiet, stuck, done, failed, Status, Outcome, returns, throws, Format, parse_line,
}

abbrev pub quiet_after_ms : ℕ
quiet_after_ms = 20000

abbrev pub stuck_after_ms : ℕ
stuck_after_ms = 90000

pub record State : Type 0 where
  pub results : List Text
  pub errors : List Text
  pub stderr_lines : List Text
  pub session_id : Option Text
  pub is_error : Bool
  pub last_activity : ℕ
  pub current_tool : Option Text
  pub finished : Bool
  pub last_key : Option (Kind × Text)
  pub sent : List Status

abbrev pub or_empty : Option Text → Text
or_empty none = []
or_empty (some t) = t

abbrev pub kind_eq : Kind → Kind → Bool
kind_eq starting starting = true
kind_eq working working = true
kind_eq tool tool = true
kind_eq quiet quiet = true
kind_eq stuck stuck = true
kind_eq done done = true
kind_eq failed failed = true
kind_eq k l = false

-- The template `${s.kind}:${s.tool ?? ''}` tells apart the same statuses as this pair: no kind holds
-- a colon.
abbrev pub key_of : Status → Kind × Text
key_of s = (s.kind, or_empty s.tool)

abbrev pub same_key : Kind × Text → Option (Kind × Text) → Bool
same_key k none = false
same_key k (some l) = kind_eq k.0 l.0 && text_eq k.1 l.1

-- `emit`: an event's status that says nothing new is dropped, a forced one never.
unfoldable pub emit : Status → Bool → State → State
emit s force st =
    if not force
      && same_key (key_of s) st.last_key
      && not (kind_eq s.kind quiet)
      && not (kind_eq s.kind stuck)
    then st
    else record st { last_key = some (key_of s); sent = st.sent ++ (s ∷ []) }

abbrev pub plain : Kind → Status
plain k = record { kind = k; tool = none; quiet_sec = none }

abbrev pub push_text : Text → List Text → List Text
push_text t ts = if length t == 0 then ts else ts ++ (t ∷ [])

-- `applyEvent`
unfoldable pub apply_at : Event → State → State
unfolding emit
apply_at (session id) st = if length id == 0 then st else record st { session_id = some id }
apply_at assistant_text st = emit (plain working) false (record st { current_tool = none })
apply_at (tool_start t) st =
    emit (record { kind = tool; tool = some t; quiet_sec = none }) false
      (record st { current_tool = some t })
apply_at tool_end st = emit (plain working) false (record st { current_tool = none })
apply_at (result text bad) st = record st {
  results = push_text text st.results;
  is_error = st.is_error || bad;
}
apply_at (error message) st = record st { errors = st.errors ++ (message ∷ []); is_error = true }

unfoldable pub apply_event : ℕ → Event → State → State
unfolding apply_at
apply_event now ev st = apply_at ev (record st { last_activity = now })

unfoldable pub apply_events : ℕ → List Event → State → State
unfolding apply_event
apply_events now [] st = st
apply_events now (ev ∷ evs) st = apply_events now evs (apply_event now ev st)

-- The state before the first line, after `emit({ kind: 'starting' })`.
unfoldable pub begin : ℕ → State
unfolding emit
begin now = emit (plain starting) false (record {
  results = [];
  errors = [];
  stderr_lines = [];
  session_id = none;
  is_error = false;
  last_activity = now;
  current_tool = none;
  finished = false;
  last_key = none;
  sent = [];
})

module _ (json_parse : Text → Option Json) (format : Format) where
  -- An exception of the parser leaves the line's callback, and the state as it was.
  abbrev pub absorb : ℕ → Outcome (List Event) → State → State
  absorb now (returns evs) st = apply_events now evs st
  absorb now throws st = st

  -- `handle.onLine`
  unfoldable pub on_line : ℕ → Text → Bool → State → State
  unfolding apply_events
  on_line now line is_stderr st =
      if is_stderr
      then (if length (trim line) == 0
          then st
          else record st { stderr_lines = st.stderr_lines ++ (line ∷ []) })
      else absorb now (parse_line json_parse format line) st

-- `Math.round(quietMs / 1000)`
abbrev pub seconds : ℕ → ℕ
seconds ms = (ms + 500) / 1000

-- The branches of the heartbeat on the running tool, below the stuck window.
unfoldable pub beat_alive : Option Text → ℕ → State → State
unfolding emit
beat_alive (some t) ms st =
    if length t == 0
    then (if leb quiet_after_ms ms
        then emit (record { kind = quiet; tool = none; quiet_sec = some (seconds ms) }) true st
        else st)
    else emit (record { kind = tool; tool = some t; quiet_sec = some (seconds ms) }) true st
beat_alive none ms st =
    if leb quiet_after_ms ms
    then emit (record { kind = quiet; tool = none; quiet_sec = some (seconds ms) }) true st
    else st

-- The heartbeat's callback.
unfoldable pub heartbeat : ℕ → State → State
unfolding beat_alive
heartbeat now st =
    if st.finished
    then st
    else let ms = now - st.last_activity in
      if leb stuck_after_ms ms
      then emit (record { kind = stuck; tool = st.current_tool; quiet_sec = some (seconds ms) })
          true st
      else beat_alive st.current_tool ms st

-- What happens to a running turn, with the time: a line of stdout or of stderr, a beat.
pub data Input : Type 0 where
  line : ℕ → Text → Bool → Input
  beat : ℕ → Input

module _ (json_parse : Text → Option Json) (format : Format) where
  unfoldable pub run_input : Input → State → State
  unfolding on_line heartbeat
  run_input (line now t is_stderr) st = on_line json_parse format now t is_stderr st
  run_input (beat now) st = heartbeat now st

  unfoldable pub run_inputs : List Input → State → State
  unfolding run_input
  run_inputs [] st = st
  run_inputs (i ∷ is) st = run_inputs is (run_input i st)

-- `ts.join(sep)` at a separator of several units.
abbrev pub join_lines : Text → List Text → Text
join_lines sep [] = []
join_lines sep (t ∷ []) = t
join_lines sep (t ∷ u ∷ ts) = t ++ (sep ++ join_lines sep (u ∷ ts))

-- The text that the turn returns: the results, else the errors, else what stood on stderr.
unfoldable pub final_text : State → Text
final_text st =
    if not (length st.results == 0)
    then trim (join_lines (10 ∷ 10 ∷ []) st.results)
    else if not (length st.errors == 0)
    then trim (join 10 st.errors)
    else trim (join 10 st.stderr_lines)

pub record TurnResult : Type 0 where
  pub text : Text
  pub session_id : Option Text
  pub code : Option ℕ
  pub is_error : Bool

abbrev pub exited_well : Option ℕ → Bool
exited_well (some ℕ.zero) = true
exited_well code = false

-- After the process has exited and its output is read to the end; `none` is no exit code.
unfoldable pub finish : Option ℕ → State → State × TurnResult
unfolding emit final_text
finish code st = (
  emit (plain (if st.is_error || not (exited_well code) then failed else done)) false
      (record st { finished = true }),
  record { text = final_text st; session_id = st.session_id; code = code; is_error = st.is_error },
)
