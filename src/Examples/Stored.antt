-- ===== src/Examples/Stored.antt =====
-- The stored rooms and values at concrete inputs.
use hisohiso.Prelude.{
  ap, ℕ, ◌+◌, ◌≡◌, refl, true, false, ◌&&◌, Option, none, some, List, [], ◌∷◌, find, leb,
  if◌then◌else◌,
}
use hisohiso.Text.{Text, units, text_eq, decimal}
use hisohiso.Text.Laws.{decimal-show}
use hisohiso.Message.Envelope.{chat, agent}
use hisohiso.Storage.Rooms.{
  Item, missing, read_rooms, has_hash, backfilled, upsert_room, get_room_kind, is_chat,
}
use hisohiso.Storage.Find.{upserted, find-upsert_room}
use hisohiso.Storage.Kinds.{
  Op, upsert, list, set_nickname, run_ops, run_ops_keep_kind, run_ops-Unique, missing-Unique,
}
use hisohiso.Storage.Items.{
  token, expected_knock, get_value, set_value, clear_value, set_knock_message,
  mark_in_app_navigation, clear_in_app_navigation, is_in_app_navigation_pending,
}
use hisohiso.Storage.Values.{
  slot_eq, trimmed_or_none, get-set-clear_value, is_in_app_navigation_pending-mark,
}

-- An agent's room and a plain one.
abbrev before : List Op
before =
    upsert 10 (units "#aabbcc") (units "h1") (units "s1") none (some agent) (some (units "c1"))
    ∷ upsert 20 (units "#ddeeff") (units "h2") (units "s2") none none none
    ∷ []

abbrev after : List Op
after =
    upsert 30 (units "#000000") (units "h1") (units "s1") none (some chat) none
    ∷ set_nickname (units "h1") (units "mine")
    ∷ list (λ h. units "#111111")
    ∷ []

run_ops_keep_kind_example :
    is_chat (get_room_kind (units "h1") (run_ops after (run_ops before missing))) ≡ false
unfolding get_room_kind run_ops upsert_room text_eq
run_ops_keep_kind_example = run_ops_keep_kind before after (units "h1") refl refl

abbrev stored : Item
stored = run_ops before missing

find-upsert_room_example :
    find
      (has_hash (units "h1"))
      (read_rooms (upsert_room 30 (units "#0") (units "h1") (units "s") none none none stored))
    ≡ (if text_eq (units "h1") (units "h1")
        then some (
            backfilled (
              upserted 30
                (units "#0")
                (units "h1")
                (units "s")
                none
                none
                none
                (find (has_hash (units "h1")) (read_rooms stored))))
        else find (has_hash (units "h1")) (read_rooms stored))
find-upsert_room_example =
    find-upsert_room 30 (units "#0") (units "h1") (units "s") none none none (units "h1") stored
      (run_ops-Unique before missing missing-Unique)

get-set-clear_value_example :
    (get_value token (units "h") (set_value expected_knock (units "h") (units " hi ") []) ≡ (
      if slot_eq expected_knock token && text_eq (units "h") (units "h")
      then some (units " hi ")
      else get_value token (units "h") []))
    × (get_value token (units "h") (clear_value expected_knock (units "h") []) ≡ (
        if slot_eq expected_knock token && text_eq (units "h") (units "h")
        then none
        else get_value token (units "h") []))
    × (get_value token (units "h") (set_knock_message expected_knock (units "h") (units " hi ") [])
        ≡ (if slot_eq expected_knock token && text_eq (units "h") (units "h")
            then trimmed_or_none (units " hi ")
            else get_value token (units "h") []))
get-set-clear_value_example =
    get-set-clear_value expected_knock token (units "h") (units "h") (units " hi ") []

abbrev number : Text → Option ℕ
number t = some (decimal t)

is_in_app_navigation_pending-mark_example :
    (is_in_app_navigation_pending number 5000 4000
        (mark_in_app_navigation 1000 (record { available = true; entries = [] }))
      ≡ leb 4000 (1000 + 5000))
    × (is_in_app_navigation_pending number 5000 4000 (
          clear_in_app_navigation
            (mark_in_app_navigation 1000 (record { available = true; entries = [] })))
        ≡ false)
is_in_app_navigation_pending-mark_example =
    is_in_app_navigation_pending-mark number 1000 4000 [] (ap some (decimal-show 1000))
