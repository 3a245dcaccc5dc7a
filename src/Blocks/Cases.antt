-- ===== src/Blocks/Cases.antt =====
-- app/src/lib/block-validation.ts: the cases of `validateBlock`, one by one.
use hisohiso.Prelude.{
  String, List, [], ◌∷◌, filter, filter_map, all, arith, refl, ◌≡◌, ap, Bool-cases, true, some,
  &&-true, inl, inr,
}
use hisohiso.Json.{Fields, lookup, as_str, as_arr}
use hisohiso.Message.Bounds.{filter_map-All}
use hisohiso.Blocks.Block.{Nodes, leaf, more, is_present, is_string, risk_levels}
use hisohiso.Blocks.Parts.{is_option, is_card, is_item, is_step, scheme_of, endpoint, side}
use hisohiso.Blocks.Validate.{Kind, kind_of, tree_or_invalid, nodes_of, pass, validate_kind}
use hisohiso.Blocks.Colors.{
  BlockIsValid, SchemeIsValid, WholeIsValid, chain, chain_known, filter-Passes, known-one_of,
  or_invalid-IsValid, scheme_of-IsValid, unless_empty-IsValid,
}

buttons-IsValid :
    (type : String) (raw : Fields) → BlockIsValid (validate_kind Kind.buttons_kind type raw)
unfolding validate_kind
buttons-IsValid type raw = or_invalid-IsValid type _ raw _ (
    chain (as_str (lookup "id" raw)) _ (λ x. chain (as_str (lookup "prompt" raw)) _ (λ x.
      chain (as_arr (lookup "options" raw)) _ (λ xs.
        unless_empty-IsValid type _ raw (filter is_option xs) _
          (λ h. (h, filter-Passes is_option xs))))))

swipe-IsValid :
    (type : String) (raw : Fields) → BlockIsValid (validate_kind Kind.swipe_kind type raw)
unfolding validate_kind
swipe-IsValid type raw = or_invalid-IsValid type _ raw _ (
    chain (as_str (lookup "id" raw)) _ (λ x. chain (as_str (lookup "prompt" raw)) _ (λ x.
      chain (as_arr (lookup "cards" raw)) _ (λ xs.
        unless_empty-IsValid type _ raw (filter is_card xs) _
          (λ h. (h, filter-Passes is_card xs))))))

checklist-IsValid :
    (type : String) (raw : Fields) → BlockIsValid (validate_kind Kind.checklist_kind type raw)
unfolding validate_kind
checklist-IsValid type raw = or_invalid-IsValid type _ raw _ (
    chain (as_str (lookup "id" raw)) _ (λ x.
      chain (as_str (lookup "prompt" raw)) _
        (λ x. chain (as_arr (lookup "items" raw)) _ (λ xs. filter-Passes is_item xs))))

sortable-IsValid :
    (type : String) (raw : Fields) → BlockIsValid (validate_kind Kind.sortable_kind type raw)
unfolding validate_kind
sortable-IsValid type raw = or_invalid-IsValid type _ raw _ (
    chain (as_str (lookup "id" raw)) _ (λ x.
      chain (as_str (lookup "prompt" raw)) _
        (λ x. chain (as_arr (lookup "items" raw)) _ (λ xs. filter-Passes is_item xs))))

slider-IsValid :
    (type : String) (raw : Fields) → BlockIsValid (validate_kind Kind.slider_kind type raw)
unfolding validate_kind
slider-IsValid type raw = or_invalid-IsValid type _ raw _ (
    chain (as_str (lookup "id" raw)) _ (λ x. chain (as_str (lookup "prompt" raw)) _ (λ x.
      chain (endpoint (lookup "min" raw)) _
        (λ a. chain (endpoint (lookup "max" raw)) _ (λ b. tt)))))

diff-IsValid : (type : String) (raw : Fields) → BlockIsValid (validate_kind Kind.diff_kind type raw)
unfolding validate_kind
diff-IsValid type raw = or_invalid-IsValid type _ raw _ (
    chain_known (as_str (lookup "file" raw)) _ (λ x file.
      chain_known (as_arr (lookup "hunks" raw)) _
        (λ xs hunks. (ap is_present file, ap is_present hunks))))

terminal-IsValid :
    (type : String) (raw : Fields) → BlockIsValid (validate_kind Kind.terminal_kind type raw)
unfolding validate_kind
terminal-IsValid type raw = or_invalid-IsValid type _ raw _ (
    chain (as_str (lookup "command" raw)) _ (λ x. chain (as_str (lookup "output" raw)) _ (λ x. tt)))

progress-IsValid :
    (type : String) (raw : Fields) → BlockIsValid (validate_kind Kind.progress_kind type raw)
unfolding validate_kind
progress-IsValid type raw =
    or_invalid-IsValid type _ raw _
      (chain (as_arr (lookup "steps" raw)) _ (λ xs. filter-Passes is_step xs))

code-IsValid : (type : String) (raw : Fields) → BlockIsValid (validate_kind Kind.code_kind type raw)
unfolding validate_kind
code-IsValid type raw =
    or_invalid-IsValid type _ raw _ (chain (as_str (lookup "content" raw)) _ (λ x. tt))

before_after-IsValid :
    (type : String) (raw : Fields)
    → kind_of type ≡ some Kind.before_after_kind
    → BlockIsValid (validate_kind Kind.before_after_kind type raw)
unfolding validate_kind
before_after-IsValid type raw e = or_invalid-IsValid type _ raw _ (
    chain_known (side (lookup "before" raw)) _ (λ a before.
      chain_known (side (lookup "after" raw)) _
        (λ b after. rw e (ap is_present before, ap is_present after))))

commit-IsValid :
    (type : String) (raw : Fields) → BlockIsValid (validate_kind Kind.commit_kind type raw)
unfolding validate_kind
commit-IsValid type raw =
    or_invalid-IsValid type _ raw _
      (chain (as_str (lookup "id" raw)) _ (λ x. chain (as_str (lookup "message" raw)) _ (λ x. tt)))

run_command-IsValid :
    (type : String) (raw : Fields) → BlockIsValid (validate_kind Kind.run_command_kind type raw)
unfolding validate_kind
run_command-IsValid type raw = or_invalid-IsValid type _ raw _ (
    chain (as_str (lookup "id" raw)) _ (λ x.
      chain (as_str (lookup "command" raw)) _
        (λ x. known-one_of risk_levels (as_str (lookup "risk" raw)))))

carousel-IsValid :
    (type : String) (raw : Fields)
    → kind_of type ≡ some Kind.carousel_kind
    → BlockIsValid (validate_kind Kind.carousel_kind type raw)
unfolding validate_kind
carousel-IsValid type raw e =
    or_invalid-IsValid type _ raw _
      (chain_known (as_arr (lookup "cards" raw)) _ (λ xs cards. rw e (ap is_present cards)))

bullets-IsValid :
    (type : String) (raw : Fields) → BlockIsValid (validate_kind Kind.bullets_kind type raw)
unfolding validate_kind
bullets-IsValid type raw = or_invalid-IsValid type _ raw _ (
    chain (as_arr (lookup "items" raw)) _ (λ xs.
      unless_empty-IsValid type _ raw (filter is_string xs) _
        (λ h. (h, filter-Passes is_string xs))))

prose-IsValid :
    (type : String) (raw : Fields) → BlockIsValid (validate_kind Kind.prose_kind type raw)
unfolding validate_kind
prose-IsValid type raw =
    or_invalid-IsValid type _ raw _ (chain (as_str (lookup "content" raw)) _ (λ x. tt))

label-IsValid :
    (type : String) (raw : Fields) → BlockIsValid (validate_kind Kind.label_kind type raw)
unfolding validate_kind
label-IsValid type raw =
    or_invalid-IsValid type _ raw _ (chain (as_str (lookup "text" raw)) _ (λ x. tt))

secret-IsValid :
    (type : String) (raw : Fields) → BlockIsValid (validate_kind Kind.secret_kind type raw)
unfolding validate_kind
secret-IsValid type raw =
    or_invalid-IsValid type _ raw _
      (chain (as_str (lookup "id" raw)) _ (λ x. chain (as_str (lookup "prompt" raw)) _ (λ x. tt)))

swatches-IsValid :
    (type : String) (raw : Fields) → BlockIsValid (validate_kind Kind.swatches_kind type raw)
unfolding validate_kind
swatches-IsValid type raw = or_invalid-IsValid type _ raw _ (
    chain (as_arr (lookup "schemes" raw)) _ (λ xs.
      unless_empty-IsValid type _ raw (filter_map scheme_of xs) _
        (λ h. (h, filter_map-All SchemeIsValid scheme_of xs scheme_of-IsValid))))

tree_or_invalid-IsValid :
    (type : String) (raw : Fields) (nodes : Nodes) → BlockIsValid (tree_or_invalid type raw nodes)
unfolding tree_or_invalid
tree_or_invalid-IsValid type raw leaf = tt
tree_or_invalid-IsValid type raw (more n ns) = refl

file_tree-IsValid :
    (type : String) (raw : Fields) → BlockIsValid (validate_kind Kind.file_tree_kind type raw)
unfolding validate_kind
file_tree-IsValid type raw = or_invalid-IsValid type _ raw _ (
    chain (as_arr (lookup "nodes" raw)) _
      (λ xs. tree_or_invalid-IsValid type raw (nodes_of (lookup "nodes" raw))))

pass-IsValid :
    (k : Kind) (type reason : String) (required : List String) (raw : Fields)
    → kind_of type ≡ some k
    → (all (λ r. is_present (as_str (lookup r raw))) required ≡ true → WholeIsValid (some k) raw)
    → BlockIsValid (pass type reason required raw)
pass-IsValid k type reason required raw named valid =
    elim (Bool-cases (all (λ r. is_present (as_str (lookup r raw))) required)) [
      | inl e ↦ rw (e, named) (valid e)
      | inr e ↦ rw e tt
    ]

pub validate_kind-IsValid :
    (k : Kind) (type : String) (raw : Fields)
    → kind_of type ≡ some k
    → BlockIsValid (validate_kind k type raw)
unfolding validate_kind
validate_kind-IsValid Kind.buttons_kind type raw e = buttons-IsValid type raw
validate_kind-IsValid Kind.swipe_kind type raw e = swipe-IsValid type raw
validate_kind-IsValid Kind.slider_kind type raw e = slider-IsValid type raw
validate_kind-IsValid Kind.checklist_kind type raw e = checklist-IsValid type raw
validate_kind-IsValid Kind.sortable_kind type raw e = sortable-IsValid type raw
validate_kind-IsValid Kind.diff_kind type raw e = diff-IsValid type raw
validate_kind-IsValid Kind.file_tree_kind type raw e = file_tree-IsValid type raw
validate_kind-IsValid Kind.terminal_kind type raw e = terminal-IsValid type raw
validate_kind-IsValid Kind.progress_kind type raw e = progress-IsValid type raw
validate_kind-IsValid Kind.code_kind type raw e = code-IsValid type raw
validate_kind-IsValid Kind.before_after_kind type raw e = before_after-IsValid type raw e
validate_kind-IsValid Kind.commit_kind type raw e = commit-IsValid type raw
validate_kind-IsValid Kind.run_command_kind type raw e = run_command-IsValid type raw
validate_kind-IsValid Kind.carousel_kind type raw e = carousel-IsValid type raw e
validate_kind-IsValid Kind.bullets_kind type raw e = bullets-IsValid type raw
validate_kind-IsValid Kind.prose_kind type raw e = prose-IsValid type raw
validate_kind-IsValid Kind.label_kind type raw e = label-IsValid type raw
validate_kind-IsValid Kind.secret_kind type raw e = secret-IsValid type raw
validate_kind-IsValid Kind.swatches_kind type raw e = swatches-IsValid type raw
validate_kind-IsValid Kind.error_kind type raw e =
    pass-IsValid Kind.error_kind type "Expected title string" ("title" ∷ []) raw e
      (λ h. (&&-true _ _ h).0)
validate_kind-IsValid Kind.confirm_danger_kind type raw e =
    pass-IsValid Kind.confirm_danger_kind type "Expected id, title, and description"
      ("id" ∷ "title" ∷ "description" ∷ []) raw e (λ h. ground (arith, h))
validate_kind-IsValid Kind.thinking_kind type raw e =
    pass-IsValid Kind.thinking_kind type "Expected content string" ("content" ∷ []) raw e
      (λ h. ground (arith, h))
validate_kind-IsValid Kind.file_peek_kind type raw e =
    pass-IsValid Kind.file_peek_kind type "Expected file and content strings"
      ("file" ∷ "content" ∷ []) raw e (λ h. ground (arith, h))
validate_kind-IsValid Kind.link_preview_kind type raw e =
    pass-IsValid Kind.link_preview_kind type "Expected url string" ("url" ∷ []) raw e
      (λ h. ground (arith, h))
validate_kind-IsValid Kind.cost_kind type raw e = rw e tt
