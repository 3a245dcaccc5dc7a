-- ===== src/Turn/Stream.antt =====
-- cli/src/lib/turn-status.ts: one line of a provider's stream, read as events. `JSON.parse` is a
-- parameter. A read of a property of null and an iteration over what is no iterable throw.
use hisohiso.Prelude.{
  ℕ, String, Bool, true, false, not, ◌&&◌, ◌||◌, Option, none, some, List, [], ◌∷◌, ◌++◌, map, take,
  length, leb, ◌==◌, str_eq, if◌then◌else◌,
}
use hisohiso.Text.{Text, units, trim, show}
use hisohiso.Json.{Json, null, bool, str, arr, get, get?, as_str, is_str, truthy, to_list}

-- `AgentTurnEvent`
pub data Event : Type 0 where
  session : Text → Event
  assistant_text : Event
  tool_start : Text → Event
  tool_end : Event
  result : Text → Bool → Event
  error : Text → Event

-- `TurnStatusKind` and `TurnStatus`
pub data Kind : Type 0 where
  starting working tool quiet stuck done failed : Kind

pub record Status : Type 0 where
  pub kind : Kind
  pub tool : Option Text
  pub quiet_sec : Option ℕ

pub data Outcome {ℓ} (A : Type ℓ) : Type ℓ where
  returns : A → Outcome A
  throws : Outcome A

infixl 5 ◌>>=◌
abbrev pub ◌>>=◌ {ℓ κ} : {A : Type ℓ} {B : Type κ} → Outcome A → (A → Outcome B) → Outcome B
returns a >>= f = f a
throws >>= f = throws

-- `textOf`
abbrev pub text_of : Option Json → Text
text_of (some (str s)) = units s
text_of v = []

-- `for (const part of content)`: an array gives its members, a string its characters (on which
-- every property read here is undefined), nothing else is iterable.
abbrev pub iterate : Option Json → Outcome (List Json)
iterate none = returns []
iterate (some null) = returns []
iterate (some (arr xs)) = returns (to_list xs)
iterate (some (str s)) = returns []
iterate (some v) = throws

-- `part.k`, which throws at null.
abbrev pub read : String → Json → Outcome (Option Json)
read k null = throws
read k v = returns (get k v)

-- `x || d` on texts
abbrev pub or_text : Text → Text → Text
or_text [] d = d
or_text (c ∷ t) d = c ∷ t

-- The body of the loop over an assistant message's content.
unfoldable pub assistant_part : Json → Outcome (List Event)
assistant_part part = read "type" part >>= λ type.
    if is_str "tool_use" type
    then returns (tool_start (or_text (text_of (get "name" part)) (units "tool")) ∷ [])
    else if is_str "text" type || is_str "thinking" type
    then returns (assistant_text ∷ [])
    else returns []

-- The body of the loop over a user message's content.
unfoldable pub user_part : Json → Outcome (List Event)
user_part part = read "type" part >>= λ type.
    if is_str "tool_result" type then returns (tool_end ∷ []) else returns []

unfoldable pub each : (Json → Outcome (List Event)) → List Json → Outcome (List Event)
each f [] = returns []
each f (x ∷ xs) = let rest = each f xs in do out ← f x; more ← rest; returns (out ++ more)

abbrev pub session_event : Text → List Event
session_event [] = []
session_event (c ∷ t) = session (c ∷ t) ∷ []

-- `message?.content ?? []`
abbrev pub content : Json → Option Json
content ev = get? "content" (get "message" ev)

abbrev pub is_true : Option Json → Bool
is_true (some (bool true)) = true
is_true v = false

unfoldable pub claude_event : Json → Outcome (List Event)
unfolding assistant_part user_part each
claude_event ev =
    let type = get "type" ev in
    if is_str "system" type && is_str "init" (get "subtype" ev)
    then returns (session_event (text_of (get "session_id" ev)))
    else if is_str "assistant" type
    then (do parts ← iterate (content ev); each assistant_part parts)
    else if is_str "user" type
    then (do parts ← iterate (content ev); each user_part parts)
    else if is_str "result" type
    then returns (
        session_event (text_of (get "session_id" ev))
        ++ (result (text_of (get "result" ev)) (is_true (get "is_error" ev)) ∷ []))
    else returns []

abbrev pub underscores_to_spaces : Text → Text
underscores_to_spaces = map (λ c. if c == 95 then 32 else c)

-- `codexToolLabel`; `replace` on a type that is no string throws.
unfoldable pub codex_label : Json → Option Json → Outcome Text
codex_label (str t) item =
    if str_eq t "command_execution"
    then (let cmd = text_of (get? "command" item) in
        returns
          (if length cmd == 0 then units "running command" else units "running: " ++ take 48 cmd))
    else if str_eq t "file_change" || str_eq t "patch"
    then returns (units "editing files")
    else if str_eq t "mcp_tool_call"
    then returns (units "calling tool")
    else if str_eq t "web_search"
    then returns (units "searching the web")
    else returns (underscores_to_spaces (units t))
codex_label v item = throws

abbrev pub started : Option Json → Option Json → Outcome (List Event)
started none item = returns []
started (some type) item =
    if truthy (some type) && not (is_str "agent_message" (some type))
    then (do label ← codex_label type item; returns (tool_start label ∷ []))
    else returns []

-- `item.completed`: an agent message with a text is the result, any other item ends a tool.
abbrev pub completed : Option Json → Option String → List Event
completed type (some text) =
    if is_str "agent_message" type
    then result (units text) false ∷ []
    else if truthy type
    then tool_end ∷ []
    else []
completed type none = if truthy type then tool_end ∷ [] else []

-- `a ?? b`
abbrev pub coalesce : Option Json → Option Json → Option Json
coalesce none b = b
coalesce (some null) b = b
coalesce a b = a

unfoldable pub codex_event : Json → Outcome (List Event)
unfolding codex_label
codex_event ev =
    let type = get "type" ev in
    let item = get "item" ev in
    let item_type = get? "type" item in
    if is_str "thread.started" type
    then returns (session_event (text_of (get "thread_id" ev)))
    else if is_str "item.started" type
    then started item_type item
    else if is_str "item.completed" type
    then returns (completed item_type (as_str (get? "text" item)))
    else if is_str "turn.failed" type || is_str "error" type
    then returns (
        error (
          or_text
            (text_of (coalesce (coalesce (get "message" ev) (get "reason" ev)) (get "error" ev)))
            (units "codex " ++ text_of type))
        ∷ [])
    else returns []

pub data Format : Type 0 where
  claude codex : Format

abbrev pub on_event : Format → Json → Outcome (List Event)
on_event claude = claude_event
on_event codex = codex_event

abbrev pub starts_brace : Text → Bool
starts_brace [] = false
starts_brace (c ∷ t) = c == 123

module _ (json_parse : Text → Option Json) where
  -- `tryParseLine`; `none` is a blank line, one that is no object, or malformed JSON.
  unfoldable pub try_parse_line : Text → Option Json
  try_parse_line line = if starts_brace (trim line) then json_parse (trim line) else none

  abbrev pub events_of : Format → Option Json → Outcome (List Event)
  events_of format none = returns []
  events_of format (some ev) = on_event format ev

  -- `parseClaudeStreamLine` and `parseCodexStreamLine`
  unfoldable pub parse_line : Format → Text → Outcome (List Event)
  unfolding try_parse_line claude_event codex_event
  parse_line format line = events_of format (try_parse_line line)

abbrev pub or_zero : Option ℕ → ℕ
or_zero none = 0
or_zero (some n) = n

abbrev pub or_else : Option Text → Text → Text
or_else none d = d
or_else (some t) d = t

-- `describeStatus`
unfoldable pub describe_kind : Kind → Option Text → ℕ → Text
describe_kind starting t sec = units "Starting…"
describe_kind working t sec = units "Working…"
describe_kind tool t sec =
    let label = or_else t (units "Running a tool") in
    if leb 20 sec then label ++ (units "… (" ++ (show sec ++ units "s)")) else label ++ units "…"
describe_kind quiet t sec = units "Still working (" ++ (show sec ++ units "s)")
describe_kind stuck t sec = units "No activity for " ++ (show sec ++ units "s — possibly stuck")
describe_kind done t sec = units "Done"
describe_kind failed t sec = units "Failed"

unfoldable pub describe_status : Status → Text
unfolding describe_kind
describe_status s = describe_kind s.kind s.tool (or_zero s.quiet_sec)
