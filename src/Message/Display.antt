-- ===== src/Message/Display.antt =====
-- app/src/lib/room-message.ts: what `formatBlockResponse` shows of secrets.
use hisohiso.Prelude.{
  true, Option, none, some, List, [], ◌∷◌, map, eq_iff, ◌≡◌, refl, ap, sym, ◌∙◌, Bool-cases, inl,
  inr,
}
use hisohiso.Json.{Json, str, get, truthy, is_str, Num}
use hisohiso.Text.{Text, units}
use hisohiso.Message.Envelope.{is_empty}
use hisohiso.Message.Responses.{
  Pick, is_secret, format_one_block_response, format_block_response, shown, shown_one,
}
use hisohiso.Message.Masks.{
  is_secret-other_value, map-other, other_many, other_one, other_value, other_values,
  truthy-other_value,
}

secret_type : (t : Option Json) → is_str "secret" t ≡ true → t ≡ some (str "secret")
secret_type (some (str s)) e = ap (λ u. some (str u)) ((eq_iff s "secret").0 e)
secret_type t e = absurd (cc e)

module _ (number_to_string : Num → Text) where
  format_one_block_response-secret :
      (br : Json)
      → is_secret br ≡ true
      → format_one_block_response number_to_string br ≡ units "Secret sent (hidden)"
  unfolding format_one_block_response
  format_one_block_response-secret br e = rw (secret_type (get "type" br) e) refl

  format_one-other :
      (v : Json → Json) (br : Json)
      → format_one_block_response number_to_string (other_value v br)
        ≡ format_one_block_response number_to_string br
  format_one-other v br = elim (Bool-cases (is_secret br)) [
    | inl e ↦
        format_one_block_response-secret (other_value v br) (is_secret-other_value v br ∙ e)
        ∙ sym (format_one_block_response-secret br e)
    | inr e ↦ rw e refl
  ]

  shown_one-other :
      (v : Json → Json) (o : Option Json)
      → shown_one (other_one v o) ≡ map (other_value v) (shown_one o)
  shown_one-other v none = refl
  shown_one-other v (some br) = elim (Bool-cases (truthy (some br))) [
    | inl t ↦ rw (truthy-other_value v br) (rw t refl)
    | inr t ↦ rw (truthy-other_value v br) (rw t refl)
  ]

  shown-other :
      (v : Json → Json) (one : Option Json) (many : Option (List Json))
      → shown (other_one v one) (other_many v many) ≡ map (other_value v) (shown one many)
  shown-other v one none = shown_one-other v one
  shown-other v one (some []) = shown_one-other v one
  shown-other v one (some (br ∷ brs)) = refl

  is_empty-map :
      (v : Json → Json) (brs : List Json) → is_empty (map (other_value v) brs) ≡ is_empty brs
  is_empty-map v [] = refl
  is_empty-map v (br ∷ brs) = refl

  -- The text that is shown for a message's responses is the same whatever the values of its secrets.
  pub format_block_response-other_values :
      (v : Json → Json) (m : Pick)
      → format_block_response number_to_string (other_values v m)
        ≡ format_block_response number_to_string m
  unfolding format_block_response
  format_block_response-other_values v m =
      let brs = shown m.block_response m.block_responses in
      rw (shown-other v m.block_response m.block_responses) (
        rw (is_empty-map v brs) (
          rw (map-other (format_one_block_response number_to_string) v brs (format_one-other v))
            refl))
