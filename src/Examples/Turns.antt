-- ===== src/Examples/Turns.antt =====
-- Turns at concrete inputs.
use hisohiso.Prelude.{
  ◌-◌, ◌||◌, not, true, false, Option, none, some, List, [], ◌∷◌, ◌++◌, ◌≡◌, refl, any,
  if◌then◌else◌,
}
use hisohiso.Text.{Text, units, text_eq}
use hisohiso.Json.{Json, null, str, bool, arr, obj, cons, nil, field, end, get, is_str}
use hisohiso.Turn.Stream.{Event, tool_start, Format, claude, Status, claude_event, content}
use hisohiso.Turn.StreamLaws.{is_thrown, is_iterable, is_null, members, claude_event-throws}
use hisohiso.Turn.Runner.{apply_event, begin, heartbeat, Input, line, beat}
use hisohiso.Turn.RunnerLaws.{is_bad}
use hisohiso.Turn.Ending.{events_of}
use hisohiso.Turn.Beats.{Report, heartbeat-apply_event}

-- What JSON.parse makes of the one line that the turn prints.
abbrev parse : Text → Option Json
parse t =
    if text_eq t (units "{R}")
    then some (
        obj (
          field "type" (str "result")
            (field "result" (str "done") (field "is_error" (bool true) end))))
    else none

-- A warning, a beat, a result that is an error, and a beat long after it.
abbrev inputs : List Input
inputs = line 6 (units "warn") true ∷ beat 30000 ∷ line 31000 (units "{R}") false ∷ beat 130000 ∷ []

inputs-is_bad : any is_bad (events_of parse claude inputs) ≡ true
unfolding text_eq hisohiso.Json.lookup hisohiso.Turn.Stream.parse_line hisohiso.Text.trim
    hisohiso.Text.is_space
inputs-is_bad = refl

heartbeat-apply_event_example :
    let st = apply_event 7 (tool_start (units "Bash")) (begin 5) in
    (new : List Status) × ((heartbeat 900000 st).sent ≡ st.sent ++ new)
    × Report (begin 5).finished st.current_tool (900000 - 7) new
heartbeat-apply_event_example = heartbeat-apply_event 7 900000 (tool_start (units "Bash")) (begin 5)

-- An assistant message whose content holds a null.
abbrev odd_line : Json
odd_line = obj (
    field "type" (str "assistant")
      (field "message" (obj (field "content" (arr (cons null nil)) end)) end))

odd_type : is_str "assistant" (get "type" odd_line) ≡ true
unfolding hisohiso.Json.lookup
odd_type = refl

claude_event-throws_example :
    is_thrown (claude_event odd_line)
    ≡ (not (is_iterable (content odd_line)) || any is_null (members (content odd_line)))
claude_event-throws_example = claude_event-throws odd_line odd_type
