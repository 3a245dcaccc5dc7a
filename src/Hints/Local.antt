-- ===== src/Hints/Local.antt =====
-- app/src/lib/auto-approve.ts and app/src/lib/pending-knocks.ts over `localStorage`, which is there
-- as a whole or throws. The event for listeners and the hook are left out. Counts are whole numbers;
-- `Math.floor(Number(t))` of a finite positive number is a parameter.
use hisohiso.Prelude.{ℕ, Bool, false, Option, none, some, List, [], ◌∷◌, ◌++◌, ltb, if◌then◌else◌}
use hisohiso.Text.{Text, units, text_eq, show}

pub record Local : Type 0 where
  pub available : Bool
  pub entries : List (Text × Text)

-- `getItem`, `removeItem` and `setItem`
unfoldable pub get_item : Text → List (Text × Text) → Option Text
get_item k [] = none
get_item k ((j, v) ∷ es) = let rest = get_item k es in if text_eq j k then some v else rest

unfoldable pub remove_item : Text → List (Text × Text) → List (Text × Text)
remove_item k [] = []
remove_item k ((j, v) ∷ es) =
    let rest = remove_item k es in if text_eq j k then rest else (j, v) ∷ rest

abbrev pub set_item : Text → Text → List (Text × Text) → List (Text × Text)
set_item k v es = (k, v) ∷ remove_item k es

abbrev pub auto_approve_key : Text → Text
auto_approve_key room_hash = units "hisohiso.autoapprove." ++ room_hash

abbrev pub is_one : Option Text → Bool
is_one none = false
is_one (some t) = text_eq t (units "1")

-- `isAutoApproveEnabled`
unfoldable pub is_auto_approve_enabled : Text → Local → Bool
unfolding get_item
is_auto_approve_enabled room_hash s =
    if s.available then is_one (get_item (auto_approve_key room_hash) s.entries) else false

-- `setAutoApproveEnabled`
unfoldable pub set_auto_approve_enabled : Text → Bool → Local → Local
unfolding remove_item
set_auto_approve_enabled room_hash enabled s =
    let key = auto_approve_key room_hash in
    if s.available
    then record s {
      entries = if enabled then set_item key (units "1") s.entries else remove_item key s.entries;
    }
    else s

-- `clearAutoApprove`
unfoldable pub clear_auto_approve : Text → Local → Local
unfolding remove_item
clear_auto_approve room_hash s =
    if s.available
    then record s { entries = remove_item (auto_approve_key room_hash) s.entries }
    else s

abbrev pub pending_knocks_key : Text → Text
pending_knocks_key room_hash = units "hisohiso.pending_knocks." ++ room_hash

abbrev pub or_zero : Option ℕ → ℕ
or_zero none = 0
or_zero (some n) = n

-- A missing or an empty text counts as 0.
abbrev pub count_of : (Text → Option ℕ) → Option Text → ℕ
count_of floor_number none = 0
count_of floor_number (some []) = 0
count_of floor_number (some (c ∷ t)) = or_zero (floor_number (c ∷ t))

-- `getPendingKnockCount`
unfoldable pub get_pending_knock_count : (Text → Option ℕ) → Text → Local → ℕ
unfolding get_item
get_pending_knock_count floor_number room_hash s =
    if s.available
    then count_of floor_number (get_item (pending_knocks_key room_hash) s.entries)
    else 0

-- `setPendingKnockCount`
unfoldable pub set_pending_knock_count : Text → ℕ → Local → Local
unfolding remove_item show
set_pending_knock_count room_hash count s =
    let key = pending_knocks_key room_hash in
    if s.available
    then record s {
      entries =
          if ltb 0 count then set_item key (show count) s.entries else remove_item key s.entries;
    }
    else s

-- `clearPendingKnocks`
unfoldable pub clear_pending_knocks : Text → Local → Local
unfolding set_pending_knock_count
clear_pending_knocks room_hash s = set_pending_knock_count room_hash 0 s
