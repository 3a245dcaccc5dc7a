-- ===== src/Message/Envelope.antt =====
-- app/src/lib/room-message.ts: `parseRoomEnvelope` and the parsers that it calls. `JSON.parse` is a
-- parameter. A plaintext is a text of code units, a member of the payload a JSON value.
use hisohiso.Prelude.{
  ℕ, String, Bool, true, false, not, ◌&&◌, Option, none, some, List, [], ◌∷◌, ◌++◌, map, filter,
  filter_map, take, length, ltb, ◌==◌, if◌then◌else◌,
}
use hisohiso.Text.{Text, units, trim, trim_end, collapse, split_on, join}
use hisohiso.Json.{Json, null, num, get, get?, truthy, is_str, as_str, as_arr, Num}

-- `RoomKind`
pub data RoomKind : Type 0 where
  chat control agent : RoomKind

-- `ReplyRef` and `ReplyEntry`
pub record ReplyRef : Type 0 where
  pub msg_id : Text
  pub quote : Text

pub record ReplyEntry : Type 0 where
  pub text : Text
  pub reply_to : ReplyRef

pub record RoomContext : Type 0 where
  pub branch : Option Text
  pub base_branch : Option Text
  pub cwd : Option Text
  pub shell : Option Text

pub record RoomEnvelope : Type 0 where
  pub text : Text
  pub handle : Option Text
  pub action : Option Json
  pub blocks : Option (List Json)
  pub block_response : Option Json
  pub block_responses : Option (List Json)
  pub room_kind : Option RoomKind
  pub agent_count : Option ℕ
  pub room_name : Option Text
  pub reply_to : Option ReplyRef
  pub replies : Option (List ReplyEntry)
  pub context : Option RoomContext

abbrev pub is_empty {ℓ} : {A : Type ℓ} → List A → Bool
is_empty [] = true
is_empty (x ∷ xs) = false

-- A text, if it is not empty.
abbrev pub non_empty {ℓ} : {A : Type ℓ} → List A → Option (List A)
non_empty [] = none
non_empty (x ∷ xs) = some (x ∷ xs)

-- `replace(/\r\n?/g, '\n')`; after a carriage return a line feed belongs to the match.
unfoldable pub newlines : Bool → Text → Text
newlines after_cr [] = []
newlines after_cr (c ∷ cs) =
    let others = newlines false cs in
    let rest = newlines true cs in
    if c == 13 then 10 ∷ rest else if after_cr && c == 10 then others else c ∷ others

-- `line.replace(/[^\S\n]+/g, ' ').trimEnd()`, on a line, which holds no line feed.
abbrev pub clean_line : Text → Text
clean_line line = trim_end (collapse false line)

-- The text without its superfluous white space, cut to 160 units.
abbrev pub bounded : Text → Text
bounded compact = if ltb 160 (length compact) then take 157 compact ++ units "..." else compact

-- `getMessagePreview`
unfoldable pub get_message_preview : Text → Text
get_message_preview content =
    let normalized = trim (newlines false content) in
    if is_empty normalized
    then units "Empty message"
    else bounded (join 10 (map clean_line (split_on 10 normalized)))

-- `cleanString`
abbrev pub clean_text : Option String → Option Text
clean_text none = none
clean_text (some s) = non_empty (trim (units s))

unfoldable pub clean_string : Option Json → Option Text
clean_string v = clean_text (as_str v)

abbrev pub quote_of : Option String → Text
quote_of none = []
quote_of (some q) = if is_empty (trim (units q)) then [] else get_message_preview (units q)

abbrev pub ref_of : Option Text → Option String → Option ReplyRef
ref_of none quote = none
ref_of (some id) quote = some (record { msg_id = id; quote = quote_of quote })

abbrev pub filled : Option String → Option Text
filled none = none
filled (some s) = non_empty (units s)

-- `parseReplyRef`: a value that is no object has no `msg_id`.
unfoldable pub parse_reply_ref : Option Json → Option ReplyRef
parse_reply_ref v = ref_of (filled (as_str (get? "msg_id" v))) (as_str (get? "quote" v))

abbrev pub is_none {ℓ} : {A : Type ℓ} → Option A → Bool
is_none none = true
is_none (some x) = false

-- `parseRoomContext`
unfoldable pub parse_room_context : Option Json → Option RoomContext
parse_room_context v =
    let branch = clean_string (get? "branch" v) in
    let base_branch = clean_string (get? "base_branch" v) in
    let cwd = clean_string (get? "cwd" v) in
    let shell = clean_string (get? "shell" v) in
    if is_none branch && is_none base_branch && is_none cwd && is_none shell
    then none
    else some (record { branch = branch; base_branch = base_branch; cwd = cwd; shell = shell })

-- An entry of `replies`.
abbrev pub entry_of : Option ReplyRef → Option Text → Option ReplyEntry
entry_of none text = none
entry_of (some ref) none = none
entry_of (some ref) (some text) = some (record { text = text; reply_to = ref })

unfoldable pub parse_reply_entry : Json → Option ReplyEntry
parse_reply_entry entry =
    entry_of (parse_reply_ref (get "reply_to" entry)) (filled (as_str (get "text" entry)))

-- `Array.isArray(v)`, some member kept.
abbrev pub kept : {A : Type 0} → (List Json → List A) → Option (List Json) → Option (List A)
kept f none = none
kept f (some xs) = non_empty (f xs)

-- `isRoomKindValue`
unfoldable pub parse_room_kind : Option Json → Option RoomKind
parse_room_kind v =
    if is_str "chat" v
    then some chat
    else if is_str "control" v
    then some control
    else if is_str "agent" v
    then some agent
    else none

-- A whole number from 0 on.
unfoldable pub parse_agent_count : Option Json → Option ℕ
parse_agent_count (some (num (Num.whole n))) = some n
parse_agent_count v = none

abbrev pub units? : Option String → Option Text
units? none = none
units? (some s) = some (units s)

abbrev pub has_string : String → Json → Bool
has_string k v = not (is_none (as_str (get k v)))

-- The value if the test holds of it.
abbrev pub if_some : (Json → Bool) → Option Json → Option Json
if_some p none = none
if_some p (some v) = if p v then some v else none

abbrev pub is_join_room : Json → Bool
is_join_room v = is_str "join-room" (get "type" v) && has_string "roomSecret" v

abbrev pub has_block_id : Json → Bool
has_block_id v = truthy (get "block_id" v)

abbrev pub or_else {ℓ} : {A : Type ℓ} → A → Option A → A
or_else d none = d
or_else d (some x) = x

-- The envelope of a plaintext that is not an object's JSON.
abbrev pub plain : Text → RoomEnvelope
plain plaintext = record {
  text = plaintext;
  handle = none;
  action = none;
  blocks = none;
  block_response = none;
  block_responses = none;
  room_kind = none;
  agent_count = none;
  room_name = none;
  reply_to = none;
  replies = none;
  context = none;
}

-- The body of the `try`; reading a property of null throws, and the handler keeps the text.
unfoldable pub from_json : Text → Json → RoomEnvelope
from_json plaintext null = plain plaintext
from_json plaintext v = record {
  text = or_else plaintext (units? (as_str (get "text" v)));
  handle = units? (as_str (get "handle" v));
  action = if_some is_join_room (get "action" v);
  blocks = kept (λ xs. xs) (as_arr (get "blocks" v));
  block_response = if_some has_block_id (get "block_response" v);
  block_responses = kept (filter (has_string "block_id")) (as_arr (get "block_responses" v));
  room_kind = parse_room_kind (get "room_kind" v);
  agent_count = parse_agent_count (get "agent_count" v);
  room_name = clean_string (get "room_name" v);
  reply_to = parse_reply_ref (get "reply_to" v);
  replies = kept (filter_map parse_reply_entry) (as_arr (get "replies" v));
  context = parse_room_context (get "context" v);
}

-- The array that mirrors a single response, and the single response that mirrors an array of one.
abbrev pub mirror_many : Option Json → Option (List Json) → Option (List Json)
mirror_many (some b) none = some (b ∷ [])
mirror_many one many = many

abbrev pub mirror_one : Option Json → Option (List Json) → Option Json
mirror_one none (some (b ∷ [])) = some b
mirror_one one many = one

unfoldable pub mirror : RoomEnvelope → RoomEnvelope
mirror e =
    let many = mirror_many e.block_response e.block_responses in
    record e { block_response = mirror_one e.block_response many; block_responses = many }

abbrev pub starts_with_brace : Text → Bool
starts_with_brace [] = false
starts_with_brace (c ∷ cs) = c == 123

abbrev pub parsed : Text → Option Json → RoomEnvelope
parsed plaintext none = plain plaintext
parsed plaintext (some v) = from_json plaintext v

-- `parseRoomEnvelope`
unfoldable pub parse_room_envelope : (Text → Option Json) → Text → RoomEnvelope
unfolding mirror
parse_room_envelope json_parse plaintext = mirror (
    if starts_with_brace (trim plaintext)
    then parsed plaintext (json_parse plaintext)
    else plain plaintext)
