-- ===== src/Message/Record.antt =====
-- app/src/lib/room-message.ts: `toChatMessageRecord` and `mergeChatMessageEcho`, on the `ChatMessage`
-- of app/src/lib/db.ts (without `expired`, which neither sets).
use hisohiso.Prelude.{
  ℕ, Bool, false, not, ◌&&◌, Option, some, List, ◌==◌, if◌then◌else◌, ◌≡◌, refl, Bool-cases, ==_iff,
  inl, inr,
}
use hisohiso.Text.{Text, text_eq}
use hisohiso.Json.{Json}
use hisohiso.Message.Envelope.{ReplyRef, ReplyEntry, parse_room_envelope, is_empty}

pub data MessageType : Type 0 where
  chat system : MessageType

pub data Direction : Type 0 where
  incoming outgoing : Direction

-- `ChatMessage`
pub record ChatMessage : Type 0 where
  pub id : Text
  pub room_hash : Text
  pub timestamp : ℕ
  pub content : Text
  pub kind : MessageType
  pub direction : Direction
  pub sender : Option Text
  pub handle : Option Text
  pub action : Option Json
  pub blocks : Option (List Json)
  pub block_response : Option Json
  pub block_responses : Option (List Json)
  pub reply_to : Option ReplyRef
  pub replies : Option (List ReplyEntry)

-- `ownTokenHash && from === ownTokenHash`
abbrev pub is_own : Option Text → Option Text → Bool
is_own (some own) (some sender) = not (is_empty own) && text_eq sender own
is_own own sender = false

module _ (json_parse : Text → Option Json) where
  -- `toChatMessageRecord`; the own hash is the last argument.
  unfoldable pub to_chat_message_record :
      Text → Text → ℕ → Option Text → Text → Option Text → ChatMessage
  to_chat_message_record msg_id room_hash timestamp sender plaintext own_token_hash =
      let envelope = parse_room_envelope json_parse plaintext in
      record {
        id = msg_id;
        room_hash = room_hash;
        timestamp = timestamp;
        content = envelope.text;
        kind = chat;
        direction = if is_own own_token_hash sender then outgoing else incoming;
        sender = sender;
        handle = envelope.handle;
        action = envelope.action;
        blocks = envelope.blocks;
        block_response = envelope.block_response;
        block_responses = envelope.block_responses;
        reply_to = envelope.reply_to;
        replies = envelope.replies;
      }

-- `mergeChatMessageEcho`
unfoldable pub merge_chat_message_echo : ChatMessage → ChatMessage → ChatMessage
merge_chat_message_echo existing echo =
    if existing.timestamp == echo.timestamp
    then existing
    else record existing { timestamp = echo.timestamp }

-- Merging the server's echo into the message that is shown takes the echo's timestamp, and gives
-- back the shown message when its old timestamp is put back: nothing else of the echo is used.
pub merge_chat_message_echo-keeps :
    (existing echo : ChatMessage)
    → ((merge_chat_message_echo existing echo).timestamp ≡ echo.timestamp)
      × (record (merge_chat_message_echo existing echo) { timestamp = existing.timestamp }
          ≡ existing)
unfolding merge_chat_message_echo
merge_chat_message_echo-keeps existing echo =
    elim (Bool-cases (existing.timestamp == echo.timestamp)) [
      | inl e ↦ (simp e ((==_iff _ _).0 e), simp e refl)
      | inr e ↦ (simp e refl, simp e refl)
    ]
