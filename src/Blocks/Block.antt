-- ===== src/Blocks/Block.antt =====
-- app/src/lib/block-validation.ts: the blocks that validation makes, and its tests of values. A field
-- that the source sets to undefined is `none`; a block passed on as it came keeps its fields.
use hisohiso.Prelude.{
  ℕ, String, Bool, true, false, ◌&&◌, ◌||◌, Option, none, some, List, [], ◌∷◌, all, map, length,
  leb, ◌+◌, ◌==◌, str_eq, if◌then◌else◌, any,
}
use hisohiso.Text.{Text, units, trim, is_digit}
use hisohiso.Json.{Json, Fields, Num, num, lookup, as_str, as_bool, as_obj, get}

-- `baseBlock`'s record; `confidence` is one of the known levels.
pub record Base : Type 0 where
  pub type : String
  pub id : Option String
  pub summary : Option String
  pub collapsed : Option Bool
  pub confidence : Option String

mutual
  -- A node of a file tree that was accepted.
  pub data Node : Type 0 where
    node : String → Option String → Nodes → Node

  pub data Nodes : Type 0 where
    leaf : Nodes
    more : Node → Nodes → Nodes

pub record Color : Type 0 where
  pub hex : Text
  pub name : Option String

pub record Scheme : Type 0 where
  pub name : Option String
  pub note : Option String
  pub colors : List Color

-- What `validateBlock` returns. The members of a list that it filters are as they came.
pub data Block : Type 0 where
  -- An error block in the place of one of this type: the type, the reason and the summary.
  invalid : String → String → Option String → Block
  -- A block passed on whole: its type and its fields.
  whole : String → Fields → Block
  -- A diff, with its two hashes.
  diff : Fields → Option String → Option String → Block
  buttons : Base → String → String → List Json → Option Bool → Block
  swipe : Base → String → String → List Json → Block
  slider : Base → String → String → Fields → Fields → Option Num → Option Num → Block
  -- The checklist and the sortable list, told apart by the base's type.
  items : Base → String → String → List Json → Block
  file_tree : Base → Nodes → Block
  terminal : Base → String → String → Option Num → Block
  progress : Base → Option String → Option String → List Json → Block
  source : Base → Option String → Option String → Option Num → String → Option (List Json) → Block
  commit : Base → String → String → Option (List Json) → Block
  run_command : Base → String → String → Option String → Option String → Block
  bullets : Base → Option String → Option String → List Json → Block
  prose : Base → String → Block
  label : Base → String → Block
  secret : Base → String → String → Option String → Option String → Block
  swatches : Base → Option String → List Scheme → Block

-- `isNumber`: finite.
abbrev pub finite : Num → Bool
finite Num.infinite = false
finite n = true

abbrev pub as_number : Option Json → Option Num
as_number (some (num n)) = if finite n then some n else none
as_number v = none

abbrev pub is_present {ℓ} : {A : Type ℓ} → Option A → Bool
is_present none = false
is_present (some x) = true

abbrev pub is_string : Json → Bool
is_string v = is_present (as_str (some v))

-- `isRecord(v) && isString(v.k)`
abbrev pub has_string : String → Json → Bool
has_string k v = is_present (as_obj (some v)) && is_present (as_str (get k v))

-- `set.has(s)`
abbrev pub one_of : List String → String → Bool
one_of xs s = any (λ x. str_eq x s) xs

abbrev pub known : List String → Option String → Option String
known xs none = none
known xs (some s) = if one_of xs s then some s else none

abbrev pub confidence_levels : List String
confidence_levels = "high" ∷ "medium" ∷ "low" ∷ []

abbrev pub step_statuses : List String
step_statuses = "done" ∷ "active" ∷ "pending" ∷ "failed" ∷ []

abbrev pub file_statuses : List String
file_statuses = "added" ∷ "modified" ∷ "deleted" ∷ "renamed" ∷ []

abbrev pub risk_levels : List String
risk_levels = "safe" ∷ "moderate" ∷ "dangerous" ∷ []

abbrev pub list_styles : List String
list_styles = "bullet" ∷ "numbered" ∷ "check" ∷ []

-- `[0-9a-fA-F]`
abbrev pub is_hex_digit : ℕ → Bool
is_hex_digit c = is_digit c || (leb 65 c && leb c 70) || (leb 97 c && leb c 102)

abbrev pub hex_length : ℕ → Bool
hex_length n = n == 3 || n == 4 || n == 6 || n == 8

-- `hexColorRe`
unfoldable pub hex_color_re : Text → Bool
hex_color_re [] = false
hex_color_re (c ∷ cs) = c == 35 && hex_length (length cs) && all is_hex_digit cs

-- `toLowerCase` on the units of a hex color.
abbrev pub lower : ℕ → ℕ
lower c = if leb 65 c && leb c 90 then c + 32 else c

-- A hex color's text in its kept form: the map over `isHexColor`'s strings.
abbrev pub hex_of : Option String → Option Text
hex_of none = none
hex_of (some s) = if hex_color_re (trim (units s)) then some (map lower (trim (units s))) else none

unfoldable pub base_block : String → Fields → Base
base_block type raw = record {
  type = type;
  id = as_str (lookup "id" raw);
  summary = as_str (lookup "summary" raw);
  collapsed = as_bool (lookup "collapsed" raw);
  confidence = known confidence_levels (as_str (lookup "confidence" raw));
}
