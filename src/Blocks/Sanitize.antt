-- ===== src/Blocks/Sanitize.antt =====
-- app/src/lib/block-validation.ts: what `sanitizeBlocksForRender` leaves.
use hisohiso.Prelude.{
  suc, String, Option, none, some, List, [], ◌∷◌, filter, filter_map, length, if◌then◌else◌, ◌≡◌,
  refl, ap, Bool-cases, inl, inr,
}
use hisohiso.Json.{Json, Items, Fields, lookup, as_str, as_obj, arr, to_list}
use hisohiso.Blocks.Block.{Block, is_present}
use hisohiso.Blocks.Parts.{◌>>=◌}
use hisohiso.Blocks.Validate.{
  Kind, sanitized, kind_of, validated, validate_block, sanitize_blocks_for_render,
}

-- The kind of a member: a record whose type the switch names.
abbrev pub known_kind : Json → Option Kind
known_kind v = do raw ← as_obj (some v); type ← as_str (lookup "type" raw); kind_of type

is_present-bind :
    {A : Type 0} (o : Option A) (f : A → Option Block) (g : A → Option Kind)
    → ((a : A) → is_present (f a) ≡ is_present (g a))
    → is_present (o >>= f) ≡ is_present (o >>= g)
is_present-bind none f g h = refl
is_present-bind (some a) f g h = h a

is_present-validated :
    (k : Option Kind) (type : String) (raw : Fields)
    → is_present (validated k type raw) ≡ is_present k
is_present-validated none type raw = refl
is_present-validated (some k) type raw = refl

is_present-validate_block : (v : Json) → is_present (validate_block v) ≡ is_present (known_kind v)
unfolding validate_block
is_present-validate_block v = is_present-bind (as_obj (some v)) _ _ (λ raw.
    is_present-bind (as_str (lookup "type" raw)) _ _
      (λ type. is_present-validated (kind_of type) type raw))

length-kept :
    (y : Option Block) (rest : List Block)
    → length (elim y [ none ↦ rest | some b ↦ b ∷ rest ])
      ≡ (if is_present y then suc (length rest) else length rest)
length-kept none rest = refl
length-kept (some b) rest = refl

length-filter_map :
    (xs : List Json)
    → length (filter_map validate_block xs) ≡ length (filter (λ v. is_present (known_kind v)) xs)
length-filter_map [] = refl
length-filter_map (v ∷ xs) = elim (Bool-cases (is_present (known_kind v))) [
  | inl e ↦
      rw (length-kept (validate_block v) (filter_map validate_block xs))
        (rw (is_present-validate_block v) (rw e (ap suc (length-filter_map xs))))
  | inr e ↦
      rw (length-kept (validate_block v) (filter_map validate_block xs))
        (rw (is_present-validate_block v) (rw e (length-filter_map xs)))
]

-- Every member of an array whose type the renderer knows gives exactly one block, the block itself or
-- an error block, and every other member gives none.
pub length-sanitize_blocks_for_render :
    (xs : Items)
    → length (sanitize_blocks_for_render (some (arr xs)))
      ≡ length (filter (λ v. is_present (known_kind v)) (to_list xs))
unfolding sanitize_blocks_for_render sanitized
length-sanitize_blocks_for_render xs = length-filter_map (to_list xs)
