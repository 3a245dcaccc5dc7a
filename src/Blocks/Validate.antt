-- ===== src/Blocks/Validate.antt =====
-- app/src/lib/block-validation.ts: `validateBlock` and `sanitizeBlocksForRender`. A missing field is
-- undefined, and reading a field of what is no record gives undefined.
use hisohiso.Prelude.{
  String, Option, none, some, List, [], ◌∷◌, filter, filter_map, all, str_eq, if◌then◌else◌,
}
use hisohiso.Json.{Json, Fields, lookup, as_str, as_bool, as_arr, as_obj}
use hisohiso.Blocks.Block.{
  Nodes, leaf, more, Block, invalid, whole, diff, buttons, swipe, slider, items, file_tree,
  terminal, progress, source, commit, run_command, bullets, prose, label, secret, swatches,
  as_number, is_string, is_present, known, risk_levels, list_styles, base_block,
}
use hisohiso.Blocks.Parts.{
  ◌>>=◌, or_invalid, unless_empty, is_option, is_card, is_item, is_step, is_number, endpoint, side,
  scheme_of, members_of,
}

-- The types that the switch names.
pub data Kind : Type 0 where
  buttons_kind swipe_kind slider_kind checklist_kind sortable_kind diff_kind file_tree_kind
        terminal_kind progress_kind code_kind before_after_kind error_kind :
      Kind
  confirm_danger_kind commit_kind run_command_kind thinking_kind cost_kind file_peek_kind
        carousel_kind link_preview_kind bullets_kind prose_kind :
      Kind
  label_kind secret_kind swatches_kind : Kind

abbrev pub kinds : List (String × Kind)
kinds =
    ("buttons", buttons_kind)
    ∷ ("swipe", swipe_kind)
    ∷ ("slider", slider_kind)
    ∷ ("checklist", checklist_kind)
    ∷ ("sortable", sortable_kind)
    ∷ ("diff", diff_kind)
    ∷ ("file-tree", file_tree_kind)
    ∷ ("terminal", terminal_kind)
    ∷ ("progress", progress_kind)
    ∷ ("code", code_kind)
    ∷ ("before-after", before_after_kind)
    ∷ ("error", error_kind)
    ∷ ("confirm-danger", confirm_danger_kind)
    ∷ ("commit", commit_kind)
    ∷ ("run-command", run_command_kind)
    ∷ ("thinking", thinking_kind)
    ∷ ("cost", cost_kind)
    ∷ ("file-peek", file_peek_kind)
    ∷ ("carousel", carousel_kind)
    ∷ ("link-preview", link_preview_kind)
    ∷ ("list", bullets_kind)
    ∷ ("prose", prose_kind)
    ∷ ("label", label_kind)
    ∷ ("secret", secret_kind)
    ∷ ("swatches", swatches_kind)
    ∷ []

abbrev pub kind_in : List (String × Kind) → String → Option Kind
kind_in [] s = none
kind_in ((t, k) ∷ ks) s = let rest = kind_in ks s in if str_eq s t then some k else rest

unfoldable pub kind_of : String → Option Kind
kind_of s = kind_in kinds s

-- A block with these required strings, passed on whole.
abbrev pub pass : String → String → List String → Fields → Block
pass type reason required raw =
    if all (λ k. is_present (as_str (lookup k raw))) required
    then whole type raw
    else invalid type reason (as_str (lookup "summary" raw))

abbrev pub nodes_of : Option Json → Nodes
nodes_of none = leaf
nodes_of (some v) = members_of v

unfoldable pub tree_or_invalid : String → Fields → Nodes → Block
unfolding base_block
tree_or_invalid type raw leaf =
    invalid type "Expected at least one node with a path" (as_str (lookup "summary" raw))
tree_or_invalid type raw (more n ns) = file_tree (base_block type raw) (more n ns)

-- The cases of the switch.
unfoldable pub validate_kind : Kind → String → Fields → Block
unfolding base_block scheme_of tree_or_invalid
validate_kind buttons_kind type raw = or_invalid type "Expected id, prompt, and options[]" raw (do
  id ← as_str (lookup "id" raw)
  prompt ← as_str (lookup "prompt" raw)
  options ← as_arr (lookup "options" raw)
  some (
      unless_empty type "Expected at least one option with label and value" raw
        (filter is_option options)
        (buttons (base_block type raw) id prompt (filter is_option options)
          (as_bool (lookup "multi" raw)))))
validate_kind swipe_kind type raw = or_invalid type "Expected id, prompt, and cards[]" raw (do
  id ← as_str (lookup "id" raw)
  prompt ← as_str (lookup "prompt" raw)
  cards ← as_arr (lookup "cards" raw)
  some (
      unless_empty type "Expected at least one card with value, title, and body" raw
        (filter is_card cards) (swipe (base_block type raw) id prompt (filter is_card cards))))
validate_kind slider_kind type raw =
    or_invalid type "Expected id, prompt, min{value,label}, and max{value,label}" raw (do
      id ← as_str (lookup "id" raw)
      prompt ← as_str (lookup "prompt" raw)
      low ← endpoint (lookup "min" raw)
      high ← endpoint (lookup "max" raw)
      some (
          slider (base_block type raw) id prompt low high (as_number (lookup "default" raw))
            (as_number (lookup "steps" raw))))
validate_kind checklist_kind type raw = or_invalid type "Expected id, prompt, and items[]" raw (do
  id ← as_str (lookup "id" raw)
  prompt ← as_str (lookup "prompt" raw)
  xs ← as_arr (lookup "items" raw)
  some (items (base_block type raw) id prompt (filter is_item xs)))
validate_kind sortable_kind type raw = or_invalid type "Expected id, prompt, and items[]" raw (do
  id ← as_str (lookup "id" raw)
  prompt ← as_str (lookup "prompt" raw)
  xs ← as_arr (lookup "items" raw)
  some (items (base_block type raw) id prompt (filter is_item xs)))
validate_kind diff_kind type raw = or_invalid type "Expected file and hunks[]" raw (do
  file ← as_str (lookup "file" raw)
  hunks ← as_arr (lookup "hunks" raw)
  some (diff raw (as_str (lookup "sha" raw)) (as_str (lookup "committed_sha" raw))))
validate_kind file_tree_kind type raw =
    or_invalid type "Expected nodes[]; flat files[] is not renderable" raw (do
      xs ← as_arr (lookup "nodes" raw)
      some (tree_or_invalid type raw (nodes_of (lookup "nodes" raw))))
validate_kind terminal_kind type raw =
    or_invalid type "Expected command and output strings; title/content is not renderable" raw (do
      command ← as_str (lookup "command" raw)
      output ← as_str (lookup "output" raw)
      some (terminal (base_block type raw) command output (as_number (lookup "exit_code" raw))))
validate_kind progress_kind type raw = or_invalid type "Expected steps[]" raw (do
  steps ← as_arr (lookup "steps" raw)
  some (
      progress (base_block type raw) (as_str (lookup "id" raw)) (as_str (lookup "title" raw))
        (filter is_step steps)))
validate_kind code_kind type raw = or_invalid type "Expected content string" raw (do
  content ← as_str (lookup "content" raw)
  some (
      source (base_block type raw) (as_str (lookup "file" raw)) (as_str (lookup "language" raw))
        (as_number (lookup "start_line" raw)) content
        (numbers (as_arr (lookup "highlight_lines" raw)))))
  where
    numbers : Option (List Json) → Option (List Json)
    numbers none = none
    numbers (some xs) = some (filter is_number xs)
validate_kind before_after_kind type raw =
    or_invalid type "Expected before and after objects with content" raw (do
      before ← side (lookup "before" raw)
      after ← side (lookup "after" raw)
      some (whole type raw))
validate_kind error_kind type raw = pass type "Expected title string" ("title" ∷ []) raw
validate_kind confirm_danger_kind type raw =
    pass type "Expected id, title, and description" ("id" ∷ "title" ∷ "description" ∷ []) raw
validate_kind commit_kind type raw = or_invalid type "Expected id and message" raw (do
  id ← as_str (lookup "id" raw)
  message ← as_str (lookup "message" raw)
  some (commit (base_block type raw) id message (strings (as_arr (lookup "files" raw)))))
  where
    strings : Option (List Json) → Option (List Json)
    strings none = none
    strings (some xs) = if all is_string xs then some xs else none
validate_kind run_command_kind type raw = or_invalid type "Expected id and command" raw (do
  id ← as_str (lookup "id" raw)
  command ← as_str (lookup "command" raw)
  some (
      run_command (base_block type raw) id command (as_str (lookup "description" raw))
        (known risk_levels (as_str (lookup "risk" raw)))))
validate_kind thinking_kind type raw = pass type "Expected content string" ("content" ∷ []) raw
validate_kind cost_kind type raw = whole type raw
validate_kind file_peek_kind type raw =
    pass type "Expected file and content strings" ("file" ∷ "content" ∷ []) raw
validate_kind carousel_kind type raw =
    or_invalid type "Expected cards[]" raw
      (do cards ← as_arr (lookup "cards" raw); some (whole type raw))
validate_kind link_preview_kind type raw = pass type "Expected url string" ("url" ∷ []) raw
validate_kind bullets_kind type raw = or_invalid type "Expected items[]" raw (do
  xs ← as_arr (lookup "items" raw)
  some (
      unless_empty type "Expected at least one string item" raw (filter is_string xs) (
        bullets (base_block type raw) (as_str (lookup "title" raw))
          (known list_styles (as_str (lookup "style" raw))) (filter is_string xs))))
validate_kind prose_kind type raw =
    or_invalid type "Expected content string" raw
      (do content ← as_str (lookup "content" raw); some (prose (base_block type raw) content))
validate_kind label_kind type raw =
    or_invalid type "Expected text string" raw
      (do text ← as_str (lookup "text" raw); some (label (base_block type raw) text))
validate_kind secret_kind type raw = or_invalid type "Expected id and prompt" raw (do
  id ← as_str (lookup "id" raw)
  prompt ← as_str (lookup "prompt" raw)
  some (
      secret (base_block type raw) id prompt (as_str (lookup "placeholder" raw))
        (as_str (lookup "confirm_label" raw))))
validate_kind swatches_kind type raw = or_invalid type "Expected schemes[]" raw (do
  xs ← as_arr (lookup "schemes" raw)
  some (
      unless_empty type "Expected at least one scheme with valid #hex colors" raw
        (filter_map scheme_of xs)
        (swatches (base_block type raw) (as_str (lookup "title" raw)) (filter_map scheme_of xs))))

abbrev pub validated : Option Kind → String → Fields → Option Block
validated none type raw = none
validated (some k) type raw = some (validate_kind k type raw)

-- `validateBlock`
unfoldable pub validate_block : Json → Option Block
validate_block v = do
  raw ← as_obj (some v)
  type ← as_str (lookup "type" raw)
  validated (kind_of type) type raw

unfoldable pub sanitized : Option (List Json) → List Block
unfolding validate_block
sanitized none = []
sanitized (some xs) = filter_map validate_block xs

-- `sanitizeBlocksForRender`; what is no array has no blocks.
unfoldable pub sanitize_blocks_for_render : Option Json → List Block
unfolding sanitized
sanitize_blocks_for_render v = sanitized (as_arr v)
