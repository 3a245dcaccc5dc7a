-- ===== src/Message/Bounds.antt =====
-- app/src/lib/room-message.ts: what `parseRoomEnvelope` lets through.
use hisohiso.Prelude.{
  if◌then◌else◌, false, Option, none, some, List, [], ◌∷◌, map, filter, filter_map, take, length,
  length-append, length-take, ltb, ◌≤◌, ◌≡◌, refl, Bool-cases, inl, inr, arith, All, String,
}
use hisohiso.Text.{Text, units, trim, split_on, join}
use hisohiso.Json.{Json, null, as_arr, as_str, get, get?}
use hisohiso.Message.Envelope.{
  ReplyRef, ReplyEntry, RoomEnvelope, is_empty, non_empty, bounded, get_message_preview, quote_of,
  ref_of, filled, parse_reply_ref, entry_of, parse_reply_entry, is_none, kept, has_string, mirror,
  mirror_one, mirror_many, from_json, plain, parsed, parse_room_envelope, clean_string, clean_text,
  starts_with_brace, newlines, clean_line,
}

bounded-le : (t : Text) → length (bounded t) ≤ 160
bounded-le t = elim (Bool-cases (ltb 160 (length t))) [
  | inl e ↦ rw e (omega (arith, length-append (take 157 t) (units "..."), length-take 157 t))
  | inr e ↦ rw e (ground (arith, e))
]

-- A preview has 160 code units at most, however long the message is.
pub get_message_preview-le : (t : Text) → length (get_message_preview t) ≤ 160
unfolding get_message_preview
get_message_preview-le t =
    let normalized = trim (newlines false t) in
    elim (Bool-cases (is_empty normalized)) [
      | inl e ↦ rw e (omega arith)
      | inr e ↦ rw e (bounded-le (join 10 (map clean_line (split_on 10 normalized))))
    ]

-- Some value satisfies the predicate, if there is one.
abbrev pub Each : {A : Type 0} → (A → Type 0) → Option A → Type 0
Each P none = Unit
Each P (some x) = P x

abbrev pub NonEmpty : {A : Type 0} → List A → Type 0
NonEmpty xs = is_empty xs ≡ false

-- A pointer with an id and a bounded quote.
abbrev pub RefIsValid : ReplyRef → Type 0
RefIsValid ref = NonEmpty ref.msg_id × (length ref.quote ≤ 160)

abbrev pub EntryIsValid : ReplyEntry → Type 0
EntryIsValid entry = NonEmpty entry.text × RefIsValid entry.reply_to

quote_of-le : (q : Option String) → length (quote_of q) ≤ 160
quote_of-le none = omega arith
quote_of-le (some q) = elim (Bool-cases (is_empty (trim (units q)))) [
  | inl e ↦ rw e (omega arith)
  | inr e ↦ rw e (get_message_preview-le (units q))
]

non_empty-NonEmpty : {A : Type 0} (xs : List A) → Each NonEmpty (non_empty xs)
non_empty-NonEmpty [] = tt
non_empty-NonEmpty (x ∷ xs) = refl

filled-NonEmpty : (s : Option String) → Each NonEmpty (filled s)
filled-NonEmpty none = tt
filled-NonEmpty (some s) = non_empty-NonEmpty (units s)

ref_of-IsValid :
    (id : Option Text) (q : Option String) → Each NonEmpty id → Each RefIsValid (ref_of id q)
ref_of-IsValid none q h = tt
ref_of-IsValid (some id) q h = (h, quote_of-le q)

parse_reply_ref-IsValid : (v : Option Json) → Each RefIsValid (parse_reply_ref v)
unfolding parse_reply_ref
parse_reply_ref-IsValid v = ref_of-IsValid _ _ (filled-NonEmpty (as_str (get? "msg_id" v)))

entry_of-IsValid :
    (ref : Option ReplyRef) (text : Option Text)
    → Each RefIsValid ref
    → Each NonEmpty text
    → Each EntryIsValid (entry_of ref text)
entry_of-IsValid none text hr ht = tt
entry_of-IsValid (some ref) none hr ht = tt
entry_of-IsValid (some ref) (some text) hr ht = (ht, hr)

pub kept_member-All :
    {B : Type 0} (P : B → Type 0) (y : Option B) (rest : List B)
    → Each P y
    → All P rest
    → All P (elim y [ none ↦ rest | some z ↦ z ∷ rest ])
kept_member-All P none rest hy h = h
kept_member-All P (some z) rest hy h = (hy, h)

pub filter_map-All :
    {A B : Type 0} (P : B → Type 0) (f : A → Option B) (xs : List A)
    → ((x : A) → Each P (f x))
    → All P (filter_map f xs)
filter_map-All P f [] h = tt
filter_map-All P f (x ∷ xs) h = kept_member-All P (f x) _ (h x) (filter_map-All P f xs h)

kept-NonEmpty :
    {A : Type 0} (f : List Json → List A) (xs : Option (List Json)) → Each NonEmpty (kept f xs)
kept-NonEmpty f none = tt
kept-NonEmpty f (some xs) = non_empty-NonEmpty (f xs)

non_empty-All : {A : Type 0} (P : A → Type 0) (xs : List A) → All P xs → Each (All P) (non_empty xs)
non_empty-All P [] h = tt
non_empty-All P (x ∷ xs) h = h

kept-All :
    {A : Type 0} (P : A → Type 0) (f : List Json → List A) (xs : Option (List Json))
    → ((ys : List Json) → All P (f ys))
    → Each (All P) (kept f xs)
kept-All P f none h = tt
kept-All P f (some xs) h = non_empty-All P (f xs) (h xs)

parse_reply_entry-IsValid : (v : Json) → Each EntryIsValid (parse_reply_entry v)
unfolding parse_reply_entry
parse_reply_entry-IsValid v =
    entry_of-IsValid (parse_reply_ref (get "reply_to" v)) (filled (as_str (get "text" v)))
      (parse_reply_ref-IsValid (get "reply_to" v)) (filled-NonEmpty (as_str (get "text" v)))

-- What an envelope promises to those who store and show it.
pub record EnvelopeIsValid (e : RoomEnvelope) : Type 0 where
  -- Quotes are bounded, ids and reply texts not empty, and a list of replies has members.
  pub reply_to : Each RefIsValid e.reply_to
  pub replies : Each (All EntryIsValid) e.replies
  pub replies_some : Each NonEmpty e.replies
  -- Lists of blocks and of responses have members.
  pub blocks : Each NonEmpty e.blocks
  pub responses : Each NonEmpty e.block_responses
  pub room_name : Each NonEmpty e.room_name

clean_string-NonEmpty : (v : Option Json) → Each NonEmpty (clean_string v)
unfolding clean_string
clean_string-NonEmpty v = clean_text-NonEmpty (as_str v)
  where
    clean_text-NonEmpty : (s : Option String) → Each NonEmpty (clean_text s)
    clean_text-NonEmpty none = tt
    clean_text-NonEmpty (some s) = non_empty-NonEmpty (trim (units s))

plain-IsValid : (t : Text) → EnvelopeIsValid (plain t)
plain-IsValid t = record {
  reply_to = tt;
  replies = tt;
  replies_some = tt;
  blocks = tt;
  responses = tt;
  room_name = tt;
}

from_json-IsValid : (t : Text) (v : Json) → EnvelopeIsValid (from_json t v)
unfolding from_json
from_json-IsValid t null = plain-IsValid t
from_json-IsValid t v = record {
  reply_to = parse_reply_ref-IsValid (get "reply_to" v);
  replies =
      kept-All EntryIsValid (filter_map parse_reply_entry) (as_arr (get "replies" v))
        (λ ys. filter_map-All EntryIsValid parse_reply_entry ys parse_reply_entry-IsValid);
  replies_some = kept-NonEmpty (filter_map parse_reply_entry) (as_arr (get "replies" v));
  blocks = kept-NonEmpty (λ xs. xs) (as_arr (get "blocks" v));
  responses = kept-NonEmpty (filter (has_string "block_id")) (as_arr (get "block_responses" v));
  room_name = clean_string-NonEmpty (get "room_name" v);
}

parsed-IsValid : (t : Text) (v : Option Json) → EnvelopeIsValid (parsed t v)
parsed-IsValid t none = plain-IsValid t
parsed-IsValid t (some v) = from_json-IsValid t v

mirror_many-NonEmpty :
    (one : Option Json) (many : Option (List Json))
    → Each NonEmpty many
    → Each NonEmpty (mirror_many one many)
mirror_many-NonEmpty none many h = h
mirror_many-NonEmpty (some b) none h = refl
mirror_many-NonEmpty (some b) (some bs) h = h

mirror-IsValid : (e : RoomEnvelope) → EnvelopeIsValid e → EnvelopeIsValid (mirror e)
unfolding mirror
mirror-IsValid e h = record {
  reply_to = h.reply_to;
  replies = h.replies;
  replies_some = h.replies_some;
  blocks = h.blocks;
  responses = mirror_many-NonEmpty e.block_response e.block_responses h.responses;
  room_name = h.room_name;
}

-- Whatever the plaintext is and whatever it parses to, the quotes of the envelope have 160 code units
-- at most, no message id, reply text or room name is empty, and no list of replies, blocks or
-- responses is empty.
pub parse_room_envelope-IsValid :
    (json_parse : Text → Option Json) (t : Text)
    → EnvelopeIsValid (parse_room_envelope json_parse t)
unfolding parse_room_envelope
parse_room_envelope-IsValid json_parse t =
    mirror-IsValid _ (elim (Bool-cases (starts_with_brace (trim t))) [
      | inl e ↦ rw e (parsed-IsValid t (json_parse t))
      | inr e ↦ rw e (plain-IsValid t)
    ])

-- The two fields of responses mirror one another: with no array there is no single response, and an
-- array of one response comes with a single response.
abbrev pub Mirrored : Option Json → Option (List Json) → Type 0
Mirrored one none = one ≡ none
Mirrored one (some (b ∷ [])) = is_none one ≡ false
Mirrored one (some bs) = Unit

mirror-lem :
    (one : Option Json) (many : Option (List Json))
    → Mirrored (mirror_one one (mirror_many one many)) (mirror_many one many)
mirror-lem none none = refl
mirror-lem (some b) none = refl
mirror-lem none (some []) = tt
mirror-lem none (some (b ∷ [])) = refl
mirror-lem none (some (b ∷ c ∷ bs)) = tt
mirror-lem (some a) (some []) = tt
mirror-lem (some a) (some (b ∷ [])) = refl
mirror-lem (some a) (some (b ∷ c ∷ bs)) = tt

mirror-Mirrored : (e : RoomEnvelope) → Mirrored (mirror e).block_response (mirror e).block_responses
unfolding mirror
mirror-Mirrored e = mirror-lem e.block_response e.block_responses

-- In every parsed envelope, a missing array of responses means that there is no single response, and
-- an array of exactly one response means that there is a single one.
pub parse_room_envelope-Mirrored :
    (json_parse : Text → Option Json) (t : Text)
    → Mirrored
        ((parse_room_envelope json_parse t).block_response)
        ((parse_room_envelope json_parse t).block_responses)
unfolding parse_room_envelope
parse_room_envelope-Mirrored json_parse t =
    mirror-Mirrored (if starts_with_brace (trim t) then parsed t (json_parse t) else plain t)
