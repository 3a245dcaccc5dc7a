-- ===== src/Blocks/Colors.antt =====
-- app/src/lib/block-validation.ts: valid blocks, and the filters of `validateBlock`.
use hisohiso.Prelude.{
  ℕ, ◌==◌, String, Bool, true, false, ◌&&◌, Option, none, some, List, [], ◌∷◌, filter, filter_map,
  all, map, length, ◌≡◌, refl, Bool-cases, inl, inr, All, arith, &&-true, length-map, ==_iff,
}
use hisohiso.Text.{Text, units, trim}
use hisohiso.Json.{Json, Fields, lookup, as_str, as_arr, as_obj}
use hisohiso.Message.Bounds.{Each, NonEmpty, filter_map-All}
use hisohiso.Blocks.Block.{
  Color, Scheme, Block, whole, diff, is_present, buttons, swipe, items, file_tree, progress,
  run_command, bullets, swatches, is_string, known, risk_levels, one_of, hex_of, hex_color_re,
  lower, is_hex_digit, hex_length,
}
use hisohiso.Blocks.Parts.{
  ◌>>=◌, or_invalid, unless_empty, is_option, is_card, is_item, is_step, color_of, scheme_of,
  filled_scheme, no_nodes, side,
}
use hisohiso.Blocks.Validate.{
  Kind, kind_of, error_kind, confirm_danger_kind, thinking_kind, file_peek_kind, link_preview_kind,
  carousel_kind, before_after_kind, cost_kind,
}

abbrev pub Passes : {A : Type 0} → (A → Bool) → List A → Type 0
Passes p xs = All (λ x. p x ≡ true) xs

-- A literal hex color in lower case.
abbrev pub ColorIsValid : Color → Type 0
ColorIsValid c = (hex_color_re c.hex ≡ true) × (map lower c.hex ≡ c.hex)

abbrev pub SchemeIsValid : Scheme → Type 0
SchemeIsValid s = NonEmpty s.colors × All ColorIsValid s.colors

abbrev Has : {A : Type 0} → Option A → Type 0
Has o = is_present o ≡ true

-- What a block that is passed on whole has at its top level, by its type.
abbrev pub WholeIsValid : Option Kind → Fields → Type 0
WholeIsValid (some error_kind) raw = Has (as_str (lookup "title" raw))
WholeIsValid (some confirm_danger_kind) raw =
    Has (as_str (lookup "id" raw))
    × Has (as_str (lookup "title" raw))
    × Has (as_str (lookup "description" raw))
WholeIsValid (some thinking_kind) raw = Has (as_str (lookup "content" raw))
WholeIsValid (some file_peek_kind) raw =
    Has (as_str (lookup "file" raw)) × Has (as_str (lookup "content" raw))
WholeIsValid (some link_preview_kind) raw = Has (as_str (lookup "url" raw))
WholeIsValid (some carousel_kind) raw = Has (as_arr (lookup "cards" raw))
WholeIsValid (some before_after_kind) raw =
    Has (side (lookup "before" raw)) × Has (side (lookup "after" raw))
WholeIsValid (some cost_kind) raw = Unit
WholeIsValid k raw = ⊥

-- What a block has that is left for rendering; a block of the type error is what stands for an invalid
-- one.
abbrev pub BlockIsValid : Block → Type 0
BlockIsValid (buttons base id prompt options multi) = NonEmpty options × Passes is_option options
BlockIsValid (swipe base id prompt cards) = NonEmpty cards × Passes is_card cards
BlockIsValid (items base id prompt xs) = Passes is_item xs
BlockIsValid (file_tree base nodes) = no_nodes nodes ≡ false
BlockIsValid (progress base id title steps) = Passes is_step steps
BlockIsValid (run_command base id command description risk) =
    Each (λ r. one_of risk_levels r ≡ true) risk
BlockIsValid (bullets base title style xs) = NonEmpty xs × Passes is_string xs
BlockIsValid (swatches base title schemes) = NonEmpty schemes × All SchemeIsValid schemes
BlockIsValid (diff raw sha committed) =
    Has (as_str (lookup "file" raw)) × Has (as_arr (lookup "hunks" raw))
BlockIsValid (whole type raw) = WholeIsValid (kind_of type) raw
BlockIsValid b = Unit

pub filter-Passes : {A : Type 0} (p : A → Bool) (xs : List A) → Passes p (filter p xs)
filter-Passes p [] = tt
filter-Passes p (x ∷ xs) = elim (Bool-cases (p x)) [
  | inl e ↦ rw e (e, filter-Passes p xs)
  | inr e ↦ rw e (filter-Passes p xs)
]

lower-lower : (c : ℕ) → lower (lower c) ≡ lower c
lower-lower c = ground arith

map-lower-lower : (t : Text) → map lower (map lower t) ≡ map lower t
map-lower-lower [] = refl
map-lower-lower (c ∷ t) = rw (lower-lower c) (rw (map-lower-lower t) refl)

lower-is_hex_digit : (c : ℕ) → is_hex_digit c ≡ true → is_hex_digit (lower c) ≡ true
lower-is_hex_digit c h = ground arith

pub unless_empty-IsValid :
    {A : Type 0} (type reason : String) (raw : Fields) (xs : List A) (b : Block)
    → (NonEmpty xs → BlockIsValid b)
    → BlockIsValid (unless_empty type reason raw xs b)
unless_empty-IsValid type reason raw [] b h = tt
unless_empty-IsValid type reason raw (x ∷ xs) b h = h refl

pub or_invalid-IsValid :
    (type reason : String) (raw : Fields) (o : Option Block)
    → Each BlockIsValid o
    → BlockIsValid (or_invalid type reason raw o)
or_invalid-IsValid type reason raw none h = tt
or_invalid-IsValid type reason raw (some b) h = h

pub chain :
    {A : Type 0} (o : Option A) (f : A → Option Block)
    → ((a : A) → Each BlockIsValid (f a))
    → Each BlockIsValid (o >>= f)
chain none f h = tt
chain (some a) f h = h a

all-lower : (t : Text) → all is_hex_digit t ≡ true → all is_hex_digit (map lower t) ≡ true
all-lower [] h = refl
all-lower (c ∷ t) h =
    let (hc, ht) = &&-true (is_hex_digit c) (all is_hex_digit t) h in
    rw (lower-is_hex_digit c hc) (all-lower t ht)

hex_color_re-lower : (t : Text) → hex_color_re t ≡ true → hex_color_re (map lower t) ≡ true
unfolding hex_color_re
hex_color_re-lower (c ∷ t) h =
    let (rest, digits) = &&-true (c == 35 && hex_length (length t)) (all is_hex_digit t) h in
    let (first, size) = &&-true (c == 35) (hex_length (length t)) rest in
    rw ((==_iff c 35).0 first) (rw (length-map lower t) (rw size (all-lower t digits)))
hex_color_re-lower [] h = h

abbrev HexIsValid : Text → Type 0
HexIsValid t = (hex_color_re t ≡ true) × (map lower t ≡ t)

hex_of-IsValid : (s : Option String) → Each HexIsValid (hex_of s)
hex_of-IsValid none = tt
hex_of-IsValid (some s) = elim (Bool-cases (hex_color_re (trim (units s)))) [
  | inl e ↦ rw e (hex_color_re-lower (trim (units s)) e, map-lower-lower (trim (units s)))
  | inr e ↦ rw e tt
]

bind-Each :
    {A B : Type 0} (P : A → Type 0) (Q : B → Type 0) (o : Option A) (f : A → Option B)
    → Each P o
    → ((a : A) → P a → Each Q (f a))
    → Each Q (o >>= f)
bind-Each P Q none f h k = tt
bind-Each P Q (some a) f h k = k a h

pub chain_known :
    {A : Type 0} (o : Option A) (f : A → Option Block)
    → ((a : A) → o ≡ some a → Each BlockIsValid (f a))
    → Each BlockIsValid (o >>= f)
chain_known none f h = tt
chain_known (some a) f h = h a refl

abbrev Anything : {A : Type 0} → A → Type 0
Anything a = Unit

anything : {A : Type 0} (o : Option A) → Each Anything o
anything none = tt
anything (some a) = tt

color_of-IsValid : (v : Json) → Each ColorIsValid (color_of v)
unfolding color_of
color_of-IsValid v =
    bind-Each Anything ColorIsValid (as_obj (some v)) _ (anything (as_obj (some v))) (λ fs _.
      bind-Each HexIsValid ColorIsValid (hex_of (as_str (lookup "hex" fs))) _
        (hex_of-IsValid (as_str (lookup "hex" fs))) (λ hex h. h))

filled_scheme-IsValid :
    (name remark : Option String) (colors : List Color)
    → All ColorIsValid colors
    → Each SchemeIsValid (filled_scheme name remark colors)
filled_scheme-IsValid name remark [] h = tt
filled_scheme-IsValid name remark (c ∷ cs) h = (refl, h)

pub scheme_of-IsValid : (v : Json) → Each SchemeIsValid (scheme_of v)
unfolding scheme_of
scheme_of-IsValid v =
    bind-Each Anything SchemeIsValid (as_obj (some v)) _ (anything (as_obj (some v))) (λ fs _.
      bind-Each Anything SchemeIsValid (as_arr (lookup "colors" fs)) _
        (anything (as_arr (lookup "colors" fs)))
        (λ xs _.
          filled_scheme-IsValid _ _ (filter_map color_of xs)
            (filter_map-All ColorIsValid color_of xs color_of-IsValid)))

pub known-one_of :
    (xs : List String) (s : Option String) → Each (λ r. one_of xs r ≡ true) (known xs s)
known-one_of xs none = tt
known-one_of xs (some s) = elim (Bool-cases (one_of xs s)) [ inl e ↦ rw e e | inr e ↦ rw e tt ]
