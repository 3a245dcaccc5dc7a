-- ===== src/Examples/Messages.antt =====
-- Messages at concrete inputs.
use hisohiso.Prelude.{◌≡◌, Option, none, some, [], ◌∷◌}
use hisohiso.Text.{Text, units}
use hisohiso.Json.{null, Json, Num, Items, str, obj, arr, cons, nil, field, end}
use hisohiso.Message.Envelope.{parse_room_envelope}
use hisohiso.Message.Responses.{Pick, redact_secrets_for_storage}
use hisohiso.Message.Record.{ChatMessage, MessageType, outgoing, incoming}
use hisohiso.Message.Bounds.{EnvelopeIsValid, parse_room_envelope-IsValid}
use hisohiso.Message.Masks.{other_values}
use hisohiso.Message.Redaction.{
  MaskedOne, MaskedMany, redact_secrets_for_storage-Masked, redact_secrets_for_storage-other_values,
}

abbrev answer_json : Json
answer_json =
    obj (
      field "block_id" (str "b1") (field "type" (str "secret") (field "value" (str "hunter2") end)))

abbrev parser : Text → Option Json
parser t = some (obj (field "text" (str "hi") (field "block_response" answer_json end)))

parse_room_envelope-IsValid_example : EnvelopeIsValid (parse_room_envelope parser (units "{}"))
parse_room_envelope-IsValid_example = parse_room_envelope-IsValid parser (units "{}")

abbrev picked : Pick
picked = record { block_response = some answer_json; block_responses = some (answer_json ∷ []) }

redact_secrets_for_storage-Masked_example :
    MaskedOne (redact_secrets_for_storage picked).block_response
    × MaskedMany (redact_secrets_for_storage picked).block_responses
redact_secrets_for_storage-Masked_example = redact_secrets_for_storage-Masked picked

abbrev other : Json → Json
other br = str "s3cret"

redact_secrets_for_storage-other_values_example :
    redact_secrets_for_storage (other_values other picked) ≡ redact_secrets_for_storage picked
redact_secrets_for_storage-other_values_example =
    redact_secrets_for_storage-other_values other picked

abbrev no_number : Num → Text
no_number n = []

abbrev shown_message : ChatMessage
shown_message = record {
  id = units "m1";
  room_hash = units "r";
  timestamp = 5;
  content = units "hi";
  kind = MessageType.chat;
  direction = outgoing;
  sender = some (units "me");
  handle = none;
  action = none;
  blocks = none;
  block_response = none;
  block_responses = none;
  reply_to = none;
  replies = none;
}

abbrev echoed : ChatMessage
echoed = record shown_message { timestamp = 9; direction = incoming }

abbrev some_blocks : Items
some_blocks = cons (obj (field "type" (str "label") (field "text" (str "hi") end))) (
    cons (obj (field "type" (str "marquee") end))
      (cons (obj (field "type" (str "carousel") (field "cards" (arr (cons null nil)) end))) nil))
