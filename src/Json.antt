-- ===== src/Json.antt =====
-- JavaScript values as `JSON.parse` makes them, with the reads that the program does on them.
--
-- Strings here are well-formed Unicode texts. Numbers are told apart by what the program asks of
-- them: integer or not, negative or not, finite or not.
use hisohiso.Prelude.{
  ℕ, String, Bool, true, false, not, Option, none, some, List, [], ◌∷◌, str_eq, if◌then◌else◌,
}

pub data Num : Type 0 where
  -- A whole number from 0 on, and one below 0 (`negative n` is -(n + 1)).
  whole negative : ℕ → Num
  -- A finite number that is not whole, by its place in some enumeration.
  fraction : ℕ → Num
  -- What an exponent out of range parses to.
  infinite : Num

mutual
  pub data Json : Type 0 where
    null : Json
    bool : Bool → Json
    num : Num → Json
    str : String → Json
    arr : Items → Json
    obj : Fields → Json

  pub data Items : Type 0 where
    nil : Items
    cons : Json → Items → Items

  pub data Fields : Type 0 where
    end : Fields
    field : String → Json → Fields → Fields

abbrev pub to_list : Items → List Json
to_list nil = []
to_list (cons x xs) = x ∷ to_list xs

abbrev pub to_items : List Json → Items
to_items [] = nil
to_items (x ∷ xs) = cons x (to_items xs)

unfoldable pub lookup : String → Fields → Option Json
lookup k end = none
lookup k (field j v fs) = if str_eq j k then some v else lookup k fs

-- `v.k`, with `none` for undefined; a property of a value that is no object is undefined, except of
-- null, where the read throws: see `read`.
abbrev pub get : String → Json → Option Json
get k (obj fs) = lookup k fs
get k v = none

-- `v?.k` at a value that may be undefined or null.
abbrev pub get? : String → Option Json → Option Json
get? k none = none
get? k (some v) = get k v

-- `Boolean(v)` at a value that may be undefined.
abbrev pub truthy : Option Json → Bool
truthy none = false
truthy (some null) = false
truthy (some (bool b)) = b
truthy (some (num (Num.whole ℕ.zero))) = false
truthy (some (num n)) = true
truthy (some (str s)) = not (str_eq s "")
truthy (some (arr xs)) = true
truthy (some (obj fs)) = true

-- `typeof v === 'string'`, with the string.
abbrev pub as_str : Option Json → Option String
as_str (some (str s)) = some s
as_str v = none

abbrev pub as_bool : Option Json → Option Bool
as_bool (some (bool b)) = some b
as_bool v = none

-- `Array.isArray(v)`, with the members.
abbrev pub as_arr : Option Json → Option (List Json)
as_arr (some (arr xs)) = some (to_list xs)
as_arr v = none

-- `v !== null && typeof v === 'object' && !Array.isArray(v)`, with the fields.
abbrev pub as_obj : Option Json → Option Fields
as_obj (some (obj fs)) = some fs
as_obj v = none

-- `v === 'text'`
abbrev pub is_str : String → Option Json → Bool
is_str t (some (str s)) = str_eq s t
is_str t v = false
