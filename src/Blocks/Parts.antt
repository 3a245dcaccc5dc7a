-- ===== src/Blocks/Parts.antt =====
-- app/src/lib/block-validation.ts: the tests and maps on the parts of a block: the nodes of a file
-- tree, the endpoints of a slider, the colors of a scheme, and the error block.
use hisohiso.Prelude.{
  String, Bool, true, false, ◌&&◌, Option, none, some, List, [], ◌∷◌, filter_map, str_eq,
  if◌then◌else◌,
}
use hisohiso.Json.{Json, Items, Fields, obj, nil, cons, lookup, as_str, as_arr, as_obj, get}
use hisohiso.Message.Envelope.{is_empty}
use hisohiso.Blocks.Block.{
  Node, Nodes, node, leaf, more, Color, Scheme, Block, invalid, as_number, has_string, is_present,
  known, step_statuses, file_statuses, hex_of,
}

infixl 5 ◌>>=◌
abbrev pub ◌>>=◌ {ℓ κ} : {A : Type ℓ} {B : Type κ} → Option A → (A → Option B) → Option B
none >>= f = none
some a >>= f = f a

abbrev pub node_of : Option String → Option String → Nodes → Option Node
node_of none status children = none
node_of (some path) status children = some (node path status children)

unfoldable mutual
  -- `validateFileTreeNode`
  pub validate_file_tree_node : Json → Option Node
  validate_file_tree_node (obj fs) =
      let children = children_in fs in
      node_of (as_str (lookup "path" fs)) (known file_statuses (as_str (lookup "status" fs)))
        children
  validate_file_tree_node v = none

  -- The accepted children, none where there is no array of them.
  pub children_in : Fields → Nodes
  children_in Fields.end = leaf
  children_in (Fields.field k v fs) =
      let rest = children_in fs in
      let here = members_of v in if str_eq k "children" then here else rest

  pub members_of : Json → Nodes
  members_of (Json.arr xs) = accepted xs
  members_of v = leaf

  pub accepted : Items → Nodes
  accepted nil = leaf
  accepted (cons x xs) =
      let rest = accepted xs in
      let first = validate_file_tree_node x in elim first [ none ↦ rest | some n ↦ more n rest ]

abbrev pub no_nodes : Nodes → Bool
no_nodes leaf = true
no_nodes (more n ns) = false

-- The block, or the error block with the reason.
abbrev pub or_invalid : String → String → Fields → Option Block → Block
or_invalid type reason raw none = invalid type reason (as_str (lookup "summary" raw))
or_invalid type reason raw (some b) = b

abbrev pub unless_empty {ℓ} : {A : Type ℓ} → String → String → Fields → List A → Block → Block
unless_empty type reason raw xs b =
    if is_empty xs then invalid type reason (as_str (lookup "summary" raw)) else b

abbrev pub is_option : Json → Bool
is_option v = has_string "label" v && has_string "value" v

abbrev pub is_card : Json → Bool
is_card v = has_string "value" v && has_string "title" v && has_string "body" v

abbrev pub is_item : Json → Bool
is_item v = has_string "value" v && has_string "label" v

abbrev pub is_step : Json → Bool
is_step v = has_string "label" v && is_present (known step_statuses (as_str (get "status" v)))

abbrev pub is_number : Json → Bool
is_number v = is_present (as_number (some v))

-- An endpoint of a slider: a record with a finite value and a label.
abbrev pub endpoint : Option Json → Option Fields
endpoint v = do
  fs ← as_obj v
  value ← as_number (lookup "value" fs)
  text ← as_str (lookup "label" fs)
  some fs

-- A side of a comparison: a record with a content.
abbrev pub side : Option Json → Option String
side v = do fs ← as_obj v; as_str (lookup "content" fs)

unfoldable pub color_of : Json → Option Color
color_of v = do
  fs ← as_obj (some v)
  hex ← hex_of (as_str (lookup "hex" fs))
  some (record { hex = hex; name = as_str (lookup "name" fs) })

abbrev pub filled_scheme : Option String → Option String → List Color → Option Scheme
filled_scheme name remark [] = none
filled_scheme name remark (c ∷ cs) = some (record { name = name; note = remark; colors = c ∷ cs })

unfoldable pub scheme_of : Json → Option Scheme
unfolding color_of
scheme_of v = do
  fs ← as_obj (some v)
  xs ← as_arr (lookup "colors" fs)
  filled_scheme (as_str (lookup "name" fs)) (as_str (lookup "note" fs)) (filter_map color_of xs)
