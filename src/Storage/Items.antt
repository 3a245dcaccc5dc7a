-- ===== src/Storage/Items.antt =====
-- app/src/lib/storage.ts: the values that a room has in the local store, and the application's lock.
--
-- `localStorage` is the list of its items; a store that throws is left out, except for the session
-- store, whose errors the code catches. `JSON.parse` and `Number` are parameters.
use hisohiso.Prelude.{
  ℕ, ◌+◌, Bool, true, false, ◌&&◌, Option, none, some, List, ◌++◌, leb, if◌then◌else◌,
}
use hisohiso.Text.{Text, units, trim, show}
use hisohiso.Json.{Json, null, get, truthy}
use hisohiso.Message.Envelope.{is_empty}
use hisohiso.Hints.Local.{Local, get_item, remove_item, set_item, is_one}

abbrev pub Items : Type 0
Items = List (Text × Text)

-- The values of a room, by the prefix of their keys.
pub data Slot : Type 0 where
  token subscriber_jwt handle room_password expected_knock last_knock setup_dismissed
        created_by_me :
      Slot

abbrev pub prefix_of : Slot → Text
prefix_of token = units "hisohiso.token."
prefix_of subscriber_jwt = units "hisohiso.subjwt."
prefix_of handle = units "hisohiso.handle."
prefix_of room_password = units "hisohiso.room_password."
prefix_of expected_knock = units "hisohiso.expected_knock."
prefix_of last_knock = units "hisohiso.last_knock."
prefix_of setup_dismissed = units "hisohiso.room_setup_dismissed."
prefix_of created_by_me = units "hisohiso.room_created_by_me."

abbrev pub slot_key : Slot → Text → Text
slot_key s room_hash = prefix_of s ++ room_hash

-- `getToken`, `getSubscriberJwt`, `getHandle`, `getRoomPassword`, `getExpectedKnockMessage` and
-- `getLastKnockMessage`
unfoldable pub get_value : Slot → Text → Items → Option Text
get_value s room_hash = get_item (slot_key s room_hash)

-- Their `set`, and the `set` of the flags.
unfoldable pub set_value : Slot → Text → Text → Items → Items
set_value s room_hash v = set_item (slot_key s room_hash) v

-- Their `clear`.
unfoldable pub clear_value : Slot → Text → Items → Items
clear_value s room_hash = remove_item (slot_key s room_hash)

-- `setExpectedKnockMessage` and `setLastKnockMessage`
unfoldable pub set_knock_message : Slot → Text → Text → Items → Items
unfolding set_value clear_value
set_knock_message s room_hash message es =
    let trimmed = trim message in
    if is_empty trimmed then clear_value s room_hash es else set_value s room_hash trimmed es

-- `getRoomSetupDismissed` and `getRoomCreatedByMe`
abbrev pub get_flag : Slot → Text → Items → Bool
get_flag s room_hash es = is_one (get_value s room_hash es)

-- `setRoomSetupDismissed`; `setRoomCreatedByMe` is the case true.
unfoldable pub set_flag : Slot → Text → Bool → Items → Items
unfolding set_value clear_value
set_flag s room_hash on es =
    if on then set_value s room_hash (units "1") es else clear_value s room_hash es

abbrev pub app_lock_key : Text
app_lock_key = units "hisohiso.app_lock"

-- `AppLockConfig`: the flag as its truth value.
pub record AppLockConfig : Type 0 where
  pub enabled : Bool
  pub pin : Option Json

abbrev pub default_lock : AppLockConfig
default_lock = record { enabled = true; pin = none }

abbrev pub enabled_of : Option Json → Bool
enabled_of none = true
enabled_of (some null) = true
enabled_of (some v) = truthy (some v)

-- A read of a property of null throws, which the code catches.
abbrev pub lock_of : Option Json → AppLockConfig
lock_of none = default_lock
lock_of (some null) = default_lock
lock_of (some v) = record { enabled = enabled_of (get "enabled" v); pin = get "pin" v }

-- `getAppLockConfig`; `parse` is none where `JSON.parse` throws.
unfoldable pub get_app_lock_config : (Text → Option Json) → Items → AppLockConfig
get_app_lock_config parse es = elim (get_item app_lock_key es) [
  | none ↦ default_lock
  | some raw ↦ if is_empty raw then default_lock else lock_of (parse raw)
]

-- `setAppLockConfig`, with `JSON.stringify`.
unfoldable pub set_app_lock_config : (AppLockConfig → Text) → AppLockConfig → Items → Items
set_app_lock_config stringify c = set_item app_lock_key (stringify c)

-- `isAppLockArmed`
abbrev pub is_app_lock_armed : AppLockConfig → Bool
is_app_lock_armed c = c.enabled && truthy c.pin

abbrev pub unlock_key : Text
unlock_key = units "hisohiso.app_unlocked"

abbrev pub nav_intent_key : Text
nav_intent_key = units "hisohiso.app_nav_intent"

abbrev pub nav_intent_max_age_ms : ℕ
nav_intent_max_age_ms = 5000

-- A change of the session store; one that throws changes nothing.
abbrev pub change : (Items → Items) → Local → Local
change f s = if s.available then record s { entries = f s.entries } else s

abbrev pub read : Text → Local → Option Text
read k s = if s.available then get_item k s.entries else none

-- `isAppUnlockedForSession`
unfoldable pub is_app_unlocked_for_session : Local → Bool
is_app_unlocked_for_session s = is_one (read unlock_key s)

-- `markAppUnlockedForSession`
unfoldable pub mark_app_unlocked_for_session : Local → Local
mark_app_unlocked_for_session = change (set_item unlock_key (units "1"))

-- `clearAppUnlockedForSession`
unfoldable pub clear_app_unlocked_for_session : Local → Local
clear_app_unlocked_for_session = change (remove_item unlock_key)

-- `markInAppNavigation`
unfoldable pub mark_in_app_navigation : ℕ → Local → Local
mark_in_app_navigation now = change (set_item nav_intent_key (show now))

-- `clearInAppNavigation`
unfoldable pub clear_in_app_navigation : Local → Local
clear_in_app_navigation = change (remove_item nav_intent_key)

abbrev pub is_recent : ℕ → ℕ → Option ℕ → Bool
is_recent max_age now none = false
is_recent max_age now (some t) = leb now (t + max_age)

-- `isInAppNavigationPending`; `number` is `Number` of a text that stands for a whole number from 0
-- on.
unfoldable pub is_in_app_navigation_pending : (Text → Option ℕ) → ℕ → ℕ → Local → Bool
is_in_app_navigation_pending number max_age now s = elim (read nav_intent_key s) [
  | none ↦ false
  | some raw ↦ if is_empty raw then false else is_recent max_age now (number raw)
]
