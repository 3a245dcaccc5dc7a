-- ===== src/Message/Responses.antt =====
-- app/src/lib/room-message.ts: how a block response is shown, and how the value of a secret is kept
-- out of the local history. The members of an object stand in the order of `Object.entries`; how a
-- number is written is a parameter.
use hisohiso.Prelude.{
  String, Bool, true, false, ◌&&◌, ◌||◌, Option, none, some, List, [], ◌∷◌, ◌++◌, map, filter, any,
  str_eq, if◌then◌else◌,
}
use hisohiso.Text.{Text, units, join, text_eq}
use hisohiso.Json.{
  Json, Items, Fields, Num, null, bool, num, str, arr, obj, nil, cons, end, field, get, truthy,
  is_str,
}
use hisohiso.Message.Envelope.{RoomContext, is_empty, non_empty, or_else}

-- `SECRET_VALUE_MASK`
abbrev pub secret_value_mask : String
secret_value_mask = "[secret hidden]"

abbrev pub is_secret : Json → Bool
is_secret br = is_str "secret" (get "type" br)

-- `{ ...fields, k: v }`
unfoldable pub set_field : String → Json → Fields → Fields
set_field k v end = field k v end
set_field k v (field j w fs) =
    let rest = set_field k v fs in if str_eq j k then field j v fs else field j w rest

abbrev pub with_value : Json → Json → Json
with_value v (obj fs) = obj (set_field "value" v fs)
with_value v br = br

unfoldable pub scrub : Json → Json
unfolding set_field
scrub br = if is_secret br then with_value (str secret_value_mask) br else br

-- A message's two fields of responses.
pub record Pick : Type 0 where
  pub block_response : Option Json
  pub block_responses : Option (List Json)

abbrev pub secret_one : Option Json → Bool
secret_one none = false
secret_one (some br) = truthy (some br) && is_secret br

abbrev pub secret_many : Option (List Json) → Bool
secret_many none = false
secret_many (some brs) = any is_secret brs

abbrev pub scrub_one : Option Json → Option Json
scrub_one none = none
scrub_one (some br) = if truthy (some br) then some (scrub br) else some br

abbrev pub scrub_many : Option (List Json) → Option (List Json)
scrub_many none = none
scrub_many (some brs) = some (map scrub brs)

-- `redactSecretsForStorage`
unfoldable pub redact_secrets_for_storage : Pick → Pick
unfolding scrub
redact_secrets_for_storage m =
    if secret_one m.block_response || secret_many m.block_responses
    then record {
      block_response = scrub_one m.block_response;
      block_responses = scrub_many m.block_responses;
    }
    else m

-- `parts.join(sep)` at a separator of any length.
unfoldable pub join_with : Text → List Text → Text
join_with sep [] = []
join_with sep (t ∷ []) = t
join_with sep (t ∷ u ∷ ts) = t ++ (sep ++ join_with sep (u ∷ ts))

-- `formatRoomContext`'s two sides: both texts with a separator, or the one that is there. An empty
-- text counts as missing.
abbrev pub given : Option Text → Option Text
given none = none
given (some t) = non_empty t

abbrev pub both : Text → Option Text → Option Text → Option Text
both sep (some a) (some b) = some (a ++ (sep ++ b))
both sep (some a) none = some a
both sep none b = b

unfoldable pub format_room_context : Option RoomContext → Option Text
format_room_context none = none
format_room_context (some ctx) =
    both (units " · ") (both (units " ← ") (given ctx.base_branch) (given ctx.branch))
      (both (units " · ") (given ctx.cwd) (given ctx.shell))

-- `Object.entries`
abbrev pub entries_of : Fields → List (String × Json)
entries_of end = []
entries_of (field k v fs) = (k, v) ∷ entries_of fs

-- The keys of the cards with a verdict.
abbrev pub verdict : String → Fields → List Text
verdict v fs = map (λ e. units e.0) (filter (λ e. is_str v (some e.1)) (entries_of fs))

abbrev pub part_of : Text → List Text → List Text
part_of sign [] = []
part_of sign (k ∷ ks) = (sign ++ join_with (units ", ") (k ∷ ks)) ∷ []

-- `formatSwipeVerdicts`
unfoldable pub format_swipe_verdicts : Option Json → Option Text
unfolding join_with
format_swipe_verdicts (some (obj fs)) =
    let parts =
      part_of (units "👍 ") (verdict "good" fs) ++ part_of (units "👎 ") (verdict "bad" fs) in
    some (if is_empty parts then units "nothing" else join_with (units "  ") parts)
format_swipe_verdicts v = none

-- The responses that are shown: the array, or the single one where the array is missing or empty.
abbrev pub shown_one : Option Json → List Json
shown_one none = []
shown_one (some br) = if truthy (some br) then br ∷ [] else []

abbrev pub shown : Option Json → Option (List Json) → List Json
shown one (some (br ∷ brs)) = br ∷ brs
shown one many = shown_one one

unfoldable mutual
  -- `String(v)`
  pub to_string : (Num → Text) → Json → Text
  to_string show_num null = units "null"
  to_string show_num (bool true) = units "true"
  to_string show_num (bool false) = units "false"
  to_string show_num (num n) = show_num n
  to_string show_num (str s) = units s
  to_string show_num (arr xs) = join 44 (elements show_num xs)
  to_string show_num (obj fs) = units "[object Object]"

  -- What `join` writes for the elements of an array.
  pub elements : (Num → Text) → Items → List Text
  elements show_num nil = []
  elements show_num (cons null xs) = [] ∷ elements show_num xs
  elements show_num (cons x xs) = to_string show_num x ∷ elements show_num xs

module _ (number_to_string : Num → Text) where
  abbrev pub entry_text : String × Json → Text
  entry_text e = units e.0 ++ (units ": " ++ to_string number_to_string e.1)

  -- `formatBlockValue`; a missing value is undefined.
  unfoldable pub format_block_value : Option Json → Text
  unfolding to_string join_with
  format_block_value none = units "undefined"
  format_block_value (some (arr xs)) = join_with (units ", ") (elements number_to_string xs)
  format_block_value (some (obj fs)) = join_with (units ", ") (map entry_text (entries_of fs))
  format_block_value (some v) = to_string number_to_string v

  -- `formatOneBlockResponse`
  unfoldable pub format_one_block_response : Json → Text
  unfolding format_block_value format_swipe_verdicts
  format_one_block_response br =
      let type = get "type" br in
      let val = get "value" br in
      let label = format_block_value val in
      if is_str "buttons" type
      then units "Selected: " ++ label
      else if is_str "swipe" type
      then units "Chose: " ++ or_else label (format_swipe_verdicts val)
      else if is_str "slider" type
      then units "Set to: " ++ label
      else if is_str "checklist" type
      then units "Checked: " ++ label
      else if is_str "sortable" type
      then units "Order: " ++ label
      else if is_str "confirm-danger" type
      then (if truthy val then units "Confirmed" else units "Cancelled")
      else if is_str "commit" type
      then (if text_eq label (units "commit")
          then units "Committed"
          else if text_eq label (units "edit")
          then units "Editing"
          else units "Cancelled")
      else if is_str "run-command" type
      then (if text_eq label (units "run") then units "Running command" else units "Skipped")
      else if is_secret br
      then units "Secret sent (hidden)"
      else label

  -- `formatBlockResponse`
  unfoldable pub format_block_response : Pick → Option Text
  unfolding format_one_block_response
  format_block_response m =
      let brs = shown m.block_response m.block_responses in
      if is_empty brs then none else some (join 10 (map format_one_block_response brs))
