-- ===== src/Message/Masks.antt =====
-- app/src/lib/room-message.ts: what scrubbing does to one response.
use hisohiso.Prelude.{
  Bool, ◌||◌, not, String, true, false, Option, none, some, List, [], ◌∷◌, map, any, str_eq, eq_iff,
  if◌then◌else◌, ◌≡◌, refl, ap, ◌∙◌, Bool-cases, inl, inr,
}
use hisohiso.Json.{Json, Fields, str, obj, end, field, get, lookup, truthy, is_str}
use hisohiso.Message.Responses.{Pick, secret_value_mask, is_secret, set_field, with_value, scrub}

-- A response as the history may hold it: a secret's value is the mask.
abbrev pub Masked : Json → Type 0
Masked br = (not (is_secret br) || is_str secret_value_mask (get "value" br)) ≡ true

or-true : (b c : Bool) → c ≡ true → (b || c) ≡ true
or-true true c h = refl
or-true false c h = h

lookup-set_field : (k : String) (v : Json) (fs : Fields) → lookup k (set_field k v fs) ≡ some v
unfolding lookup set_field
lookup-set_field k v end = simp ((eq_iff k k).1 refl) refl
lookup-set_field k v (field j w fs) = elim (Bool-cases (str_eq j k)) [
  | inl e ↦ rw e (rw e refl)
  | inr e ↦ rw e (rw e (lookup-set_field k v fs))
]

lookup-set_other :
    (j k : String) (v : Json) (fs : Fields)
    → str_eq k j ≡ false
    → lookup j (set_field k v fs) ≡ lookup j fs
unfolding lookup set_field
lookup-set_other j k v end h = rw h refl
lookup-set_other j k v (field i w fs) h = elim (Bool-cases (str_eq i k)) [
  | inl e ↦ rw e (rw ((eq_iff i k).0 e) (rw h refl))
  | inr e ↦ rw e (rw (lookup-set_other j k v fs h) refl)
]

set_field-set_field :
    (k : String) (v w : Json) (fs : Fields) → set_field k v (set_field k w fs) ≡ set_field k v fs
unfolding set_field
set_field-set_field k v w end = simp ((eq_iff k k).1 refl) refl
set_field-set_field k v w (field j u fs) = elim (Bool-cases (str_eq j k)) [
  | inl e ↦ rw e (rw e refl)
  | inr e ↦ rw e (rw e (rw (set_field-set_field k v w fs) refl))
]

is_secret-set_value :
    (v : Json) (fs : Fields) → is_secret (obj (set_field "value" v fs)) ≡ is_secret (obj fs)
is_secret-set_value v fs = ap (is_str "secret") (lookup-set_other "type" "value" v fs refl)

pub scrub-Masked : (br : Json) → Masked (scrub br)
unfolding scrub
scrub-Masked br = elim (Bool-cases (is_secret br)) [
  | inl e ↦ rw e (with_mask br e)
  | inr e ↦ rw e (rw e refl)
]
  where
    with_mask : (b : Json) → is_secret b ≡ true → Masked (with_value (str secret_value_mask) b)
    with_mask (obj fs) e =
        or-true (not (is_secret (obj (set_field "value" (str secret_value_mask) fs))))
          (is_str secret_value_mask (lookup "value" (set_field "value" (str secret_value_mask) fs)))
          (ap (is_str secret_value_mask) (lookup-set_field "value" (str secret_value_mask) fs))
    with_mask b e = absurd (cc e)

scrub-with_value : (v : Json) (br : Json) → is_secret br ≡ true → scrub (with_value v br) ≡ scrub br
unfolding scrub
scrub-with_value v (obj fs) e =
    rw (is_secret-set_value v fs)
      (rw e (ap obj (set_field-set_field "value" (str secret_value_mask) v fs)))
scrub-with_value v b e = refl

-- The response with another value in the place of a secret's.
abbrev pub other_value : (Json → Json) → Json → Json
other_value v br = if is_secret br then with_value (v br) br else br

abbrev pub other_one : (Json → Json) → Option Json → Option Json
other_one v none = none
other_one v (some br) = some (other_value v br)

abbrev pub other_many : (Json → Json) → Option (List Json) → Option (List Json)
other_many v none = none
other_many v (some brs) = some (map (other_value v) brs)

abbrev pub other_values : (Json → Json) → Pick → Pick
other_values v m = record {
  block_response = other_one v m.block_response;
  block_responses = other_many v m.block_responses;
}

pub scrub-other_value : (v : Json → Json) (br : Json) → scrub (other_value v br) ≡ scrub br
scrub-other_value v br = elim (Bool-cases (is_secret br)) [
  | inl e ↦ rw e (scrub-with_value (v br) br e)
  | inr e ↦ rw e refl
]

is_secret-with_value : (v br : Json) → is_secret (with_value v br) ≡ is_secret br
is_secret-with_value v (obj fs) = is_secret-set_value v fs
is_secret-with_value v b = refl

pub is_secret-other_value :
    (v : Json → Json) (br : Json) → is_secret (other_value v br) ≡ is_secret br
is_secret-other_value v br = elim (Bool-cases (is_secret br)) [
  | inl e ↦ rw e (is_secret-with_value (v br) br ∙ e)
  | inr e ↦ rw e e
]

truthy-with_value : (v br : Json) → truthy (some (with_value v br)) ≡ truthy (some br)
truthy-with_value v (obj fs) = refl
truthy-with_value v b = refl

pub truthy-other_value :
    (v : Json → Json) (br : Json) → truthy (some (other_value v br)) ≡ truthy (some br)
truthy-other_value v br = elim (Bool-cases (is_secret br)) [
  | inl e ↦ rw e (truthy-with_value (v br) br)
  | inr e ↦ rw e refl
]

pub map-other :
    {A : Type 0} (f : Json → A) (v : Json → Json) (brs : List Json)
    → ((br : Json) → f (other_value v br) ≡ f br)
    → map f (map (other_value v) brs) ≡ map f brs
map-other f v [] h = refl
map-other f v (br ∷ brs) h = rw (h br) (rw (map-other f v brs h) refl)

any-other :
    (v : Json → Json) (brs : List Json)
    → any is_secret (map (other_value v) brs) ≡ any is_secret brs
any-other v [] = refl
any-other v (br ∷ brs) = rw (is_secret-other_value v br) (rw (any-other v brs) refl)
