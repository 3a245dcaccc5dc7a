-- ===== src/Agents/Output.antt =====
-- cli/src/daemon/agent-manager.ts: `sendAgentOutput`, and what a finished turn does to the session.
--
-- The extraction of blocks from an output (`parseBlockOutput`) and the rendering of an error are
-- parameters. `relay n` says whether the relay takes the n-th message of the turn.
use hisohiso.Prelude.{
  ℕ, zero, suc, ◌+◌, Bool, true, false, not, Option, none, some, List, [], ◌∷◌, ◌++◌, leb, ◌&&◌,
  ◌||◌, if◌then◌else◌, length, take, drop, any,
}
use hisohiso.Text.{Text, units, text_eq, trim, show}
use hisohiso.Json.{Json, get, is_str}
use hisohiso.Message.Envelope.{is_empty}
use hisohiso.Agents.Session.{Session}

-- The result of `parseBlockOutput`.
pub record Parsed : Type 0 where
  pub text : Text
  pub blocks : Option (List Json)
  pub room_name : Option Text

-- A chat message to the room, with the options that ride along.
pub record Sent : Type 0 where
  pub text : Text
  pub blocks : Option (List Json)
  pub room_name : Option Text

abbrev pub plain : Text → Sent
plain t = record { text = t; blocks = none; room_name = none }

abbrev pub max_msg : ℕ
max_msg = 4000

-- The loop of the slices; the fuel bounds their number.
unfoldable pub chunks_from : ℕ → Text → List Text
chunks_from zero t = []
chunks_from (suc f) [] = []
chunks_from (suc f) (c ∷ cs) =
    let rest = chunks_from f (drop max_msg (c ∷ cs)) in take max_msg (c ∷ cs) ∷ rest

unfoldable pub chunks : Text → List Text
unfolding chunks_from
chunks t = if leb (length t) max_msg then t ∷ [] else chunks_from (length t) t

abbrev pub plains : List Text → List Sent
plains [] = []
plains (t ∷ ts) = plain t ∷ plains ts

-- The first chunk carries the blocks and the title.
abbrev pub with_options : Option (List Json) → Option Text → List Text → List Sent
with_options bs name [] = []
with_options bs name (t ∷ ts) = record { text = t; blocks = bs; room_name = name } ∷ plains ts

-- Sends messages in order until the relay refuses one, from the n-th of the turn on: those that
-- went out, and whether all did.
unfoldable pub post_all : (ℕ → Bool) → ℕ → List Sent → List Sent × Bool
post_all relay n [] = ([], true)
post_all relay n (m ∷ ms) =
    let (out, ok) = post_all relay (suc n) ms in if relay n then (m ∷ out, ok) else ([], false)

abbrev pub same_title : Option Text → Option Text → Bool
same_title (some s) (some t) = text_eq s t
same_title none none = true
same_title s t = false

-- `blockParsed?.roomName && blockParsed.roomName !== session.lastTitle`
abbrev pub is_new_title : Option Text → Option Text → Bool
is_new_title none last = false
is_new_title (some t) last = not (is_empty t) && not (same_title (some t) last)

abbrev pub title_of : Option Parsed → Option Text
title_of none = none
title_of (some p) = p.room_name

abbrev pub text_of_output : Option Parsed → Text → Text
text_of_output none output = output
text_of_output (some p) output = p.text

abbrev pub blocks_of : Option Parsed → Option (List Json)
blocks_of none = none
blocks_of (some p) = p.blocks

abbrev pub is_attention : Json → Bool
is_attention b =
    let t = get "type" b in
    is_str "confirm-danger" t
    || is_str "buttons" t
    || is_str "checklist" t
    || is_str "swipe" t
    || is_str "slider" t
    || is_str "sortable" t
    || is_str "run-command" t
    || is_str "commit" t

abbrev pub needs_attention : Option (List Json) → Bool
needs_attention none = false
needs_attention (some bs) = any is_attention bs

-- The messages of one reply.
unfoldable pub reply_messages : Option Parsed → Text → Option Text → List Sent
reply_messages parsed output last =
    let name = title_of parsed in
    with_options (blocks_of parsed) (if is_new_title name last then name else none)
      (chunks (text_of_output parsed output))

abbrev pub retitled : Option Text → Session → Session
retitled name s = if is_new_title name s.last_title then record s { last_title = name } else s

-- `sendAgentOutput`: the session, what went out, whether all of it did, and whether the reply needs
-- the operator.
unfoldable pub send_agent_output :
    (Text → Option Parsed) → (ℕ → Bool) → Text → Session → Session × List Sent × Bool × Bool
send_agent_output parse relay output s =
    let parsed = parse output in
    let (out, ok) = post_all relay 0 (reply_messages parsed output s.last_title) in
    (retitled (title_of parsed) s, out, ok, needs_attention (blocks_of parsed))

-- How a turn's process ends.
pub data TurnEnd : Type 0 where
  -- `runStreamingTurn`: exit code (none for null), error flag, final text and session id.
  streamed : (code : Option ℕ) (is_error : Bool) (text : Text) (session_id : Option Text) → TurnEnd
  -- `runCommand`: exit code, the text that the output's format gives, its session id and stderr.
  buffered : (code : Option ℕ) (text : Text) (session_id : Option Text) (stderr : Text) → TurnEnd
  -- The process could not run.
  threw : (message : Text) → TurnEnd

-- `mode === 'session' && id && id !== session.sessionId`
abbrev pub renewed : Bool → Option Text → Session → Session
renewed keeps none s = s
renewed keeps (some id) s =
    if keeps && not (is_empty id) then record s { session_id = some id } else s

abbrev pub is_success : Option ℕ → Bool
is_success (some zero) = true
is_success code = false

abbrev pub exit_code : Option ℕ → Text
exit_code none = []
exit_code (some n) = units ", exit code " ++ show n

abbrev pub code_text : Option ℕ → Text
code_text none = units "null"
code_text (some n) = show n

-- A message whose failure is caught or not seen.
abbrev pub post_quietly : Bool → Text → List Sent
post_quietly ok t = if ok then plain t ∷ [] else []

-- The `catch` of `runTurn`; `ok` says whether the relay takes its notice.
abbrev pub report : Bool → Text → Session → List Sent → Session × List Sent
report ok message s out = (
  record s { last_reply_needs_attention = true },
  out ++ post_quietly ok (units "Error: " ++ message),
)

abbrev pub or_text : Text → Text → Text
or_text [] d = d
or_text (c ∷ cs) d = c ∷ cs

-- After a reply: the notice of a failed exit, or the catch of a reply that the relay refused.
abbrev pub streamed_tail :
    (ℕ → Bool)
    → Text
    → Bool
    → Option ℕ
    → Text
    → Session × List Sent × Bool × Bool
    → Session × List Sent
streamed_tail relay refusal failing code text (s, out, true, attention) = (
  record s { last_reply_needs_attention = attention },
  out
      ++ (if failing && is_empty text
          then post_quietly (relay (length out))
              (units "(turn failed" ++ (exit_code code ++ units ")"))
          else []),
)
streamed_tail relay refusal failing code text (s, out, false, attention) =
    report (relay (length out + 1)) refusal s out

abbrev pub buffered_tail :
    (ℕ → Bool) → Text → Bool → Option ℕ → Session × List Sent × Bool × Bool → Session × List Sent
buffered_tail relay refusal failing code (s, out, true, attention) =
    let told = record s { last_reply_needs_attention = attention } in
    if failing
    then (if relay (length out)
        then (told, out ++ (plain (units "(exit code " ++ (code_text code ++ units ")")) ∷ []))
        else report (relay (length out + 1)) refusal told out)
    else (told, out)
buffered_tail relay refusal failing code (s, out, false, attention) =
    report (relay (length out + 1)) refusal s out

-- The rest of `runTurn` when the process has ended: `keeps` says whether the profile's mode is
-- session, `refusal` is the message of the error that a refused send throws.
unfoldable pub finish_turn :
    (Text → Option Parsed) → (ℕ → Bool) → Text → Bool → TurnEnd → Session → Session × List Sent
unfolding send_agent_output
finish_turn parse relay refusal keeps (streamed code is_error text id) s =
    let reply = trim text in
    streamed_tail relay refusal (not (is_success code) || is_error) code reply
      (send_agent_output parse relay (or_text reply (units "(no output)")) (renewed keeps id s))
finish_turn parse relay refusal keeps (buffered code text id stderr) s =
    buffered_tail relay refusal (not (is_success code) && not (is_empty stderr)) code (
      send_agent_output parse relay (trim (or_text text (or_text stderr (units "(no output)"))))
        (renewed keeps id s))
finish_turn parse relay refusal keeps (threw message) s = report (relay 0) message s []
