-- ===== src/Message/Redaction.antt =====
-- app/src/lib/room-message.ts: what `redactSecretsForStorage` keeps of a message.
use hisohiso.Prelude.{
  Bool, true, false, ◌&&◌, ◌||◌, Option, none, some, List, [], ◌∷◌, map, any, ◌≡◌, refl, ap, sym,
  ◌∙◌, Bool-cases, inl, inr, All,
}
use hisohiso.Json.{Json, obj, truthy}
use hisohiso.Message.Responses.{
  Pick, is_secret, scrub, scrub_one, scrub_many, secret_one, secret_many,
  redact_secrets_for_storage,
}
use hisohiso.Message.Masks.{
  Masked, map-other, other_many, other_one, other_value, other_values, scrub-Masked,
  scrub-other_value, truthy-other_value,
}

neither : (a b : Bool) → (a || b) ≡ false → (a ≡ false) × (b ≡ false)
neither true b e = absurd (cc e)
neither false b e = (refl, e)

second : (a b : Bool) → a ≡ true → (a && b) ≡ false → b ≡ false
second true b t e = e
second false b t e = absurd (cc t)

scrub-plain : (br : Json) → is_secret br ≡ false → scrub br ≡ br
unfolding scrub
scrub-plain br e = rw e refl

map-scrub-plain : (brs : List Json) → any is_secret brs ≡ false → map scrub brs ≡ brs
map-scrub-plain [] e = refl
map-scrub-plain (br ∷ brs) e =
    let (h, t) = neither (is_secret br) (any is_secret brs) e in
    rw (scrub-plain br h) (rw (map-scrub-plain brs t) refl)

scrub_one-plain : (o : Option Json) → secret_one o ≡ false → scrub_one o ≡ o
scrub_one-plain none e = refl
scrub_one-plain (some br) e = elim (Bool-cases (truthy (some br))) [
  | inl t ↦ rw t (ap some (scrub-plain br (second (truthy (some br)) (is_secret br) t e)))
  | inr t ↦ rw t refl
]

scrub_many-plain : (o : Option (List Json)) → secret_many o ≡ false → scrub_many o ≡ o
scrub_many-plain none e = refl
scrub_many-plain (some brs) e = ap some (map-scrub-plain brs e)

abbrev scrubbed : Pick → Pick
scrubbed m = record {
  block_response = scrub_one m.block_response;
  block_responses = scrub_many m.block_responses;
}

-- The early return on a message without secrets agrees with scrubbing it.
redact_secrets_for_storage-lem : (m : Pick) → redact_secrets_for_storage m ≡ scrubbed m
unfolding redact_secrets_for_storage
redact_secrets_for_storage-lem m =
    elim (Bool-cases (secret_one m.block_response || secret_many m.block_responses)) [
      | inl e ↦ rw e refl
      | inr e ↦
          let (h, t) = neither (secret_one m.block_response) (secret_many m.block_responses) e in
          rw e (
            sym (λ i. record {
              block_response = scrub_one-plain m.block_response h i;
              block_responses = scrub_many-plain m.block_responses t i;
            }))
    ]

abbrev pub MaskedOne : Option Json → Type 0
MaskedOne none = Unit
MaskedOne (some br) = Masked br

abbrev pub MaskedMany : Option (List Json) → Type 0
MaskedMany none = Unit
MaskedMany (some brs) = All Masked brs

secret-truthy : (br : Json) → truthy (some br) ≡ false → Masked br
secret-truthy (obj fs) e = absurd (cc e)
secret-truthy br e = refl

scrub_one-Masked : (o : Option Json) → MaskedOne (scrub_one o)
scrub_one-Masked none = tt
scrub_one-Masked (some br) = elim (Bool-cases (truthy (some br))) [
  | inl t ↦ rw t (scrub-Masked br)
  | inr t ↦ rw t (secret-truthy br t)
]

map-scrub-Masked : (brs : List Json) → All Masked (map scrub brs)
map-scrub-Masked [] = tt
map-scrub-Masked (br ∷ brs) = (scrub-Masked br, map-scrub-Masked brs)

scrub_many-Masked : (o : Option (List Json)) → MaskedMany (scrub_many o)
scrub_many-Masked none = tt
scrub_many-Masked (some brs) = map-scrub-Masked brs

-- In a message as it is stored, every response of type `secret`, the single one and those of the
-- array, has the mask as its value.
pub redact_secrets_for_storage-Masked :
    (m : Pick)
    → MaskedOne ((redact_secrets_for_storage m).block_response)
      × MaskedMany ((redact_secrets_for_storage m).block_responses)
redact_secrets_for_storage-Masked m =
    rw (redact_secrets_for_storage-lem m)
      (scrub_one-Masked m.block_response, scrub_many-Masked m.block_responses)

scrub_one-other : (v : Json → Json) (o : Option Json) → scrub_one (other_one v o) ≡ scrub_one o
scrub_one-other v none = refl
scrub_one-other v (some br) = rw (truthy-other_value v br) (elim (Bool-cases (truthy (some br))) [
  | inl t ↦ rw t (ap some (scrub-other_value v br))
  | inr t ↦ rw t (ap some (falsy br t))
])
  where
    falsy : (b : Json) → truthy (some b) ≡ false → other_value v b ≡ b
    falsy (obj fs) e = absurd (cc e)
    falsy b e = refl

scrub_many-other :
    (v : Json → Json) (o : Option (List Json)) → scrub_many (other_many v o) ≡ scrub_many o
scrub_many-other v none = refl
scrub_many-other v (some brs) = ap some (map-other scrub v brs (scrub-other_value v))

-- Two messages that differ only in the values of their secrets are stored alike: nothing of a
-- secret's value is kept.
pub redact_secrets_for_storage-other_values :
    (v : Json → Json) (m : Pick)
    → redact_secrets_for_storage (other_values v m) ≡ redact_secrets_for_storage m
redact_secrets_for_storage-other_values v m =
    redact_secrets_for_storage-lem (other_values v m)
    ∙ (λ i. record {
      block_response = scrub_one-other v m.block_response i;
      block_responses = scrub_many-other v m.block_responses i;
    })
    ∙ sym (redact_secrets_for_storage-lem m)
