-- ===== src/Storage/Accessors.antt =====
-- app/src/lib/storage.ts: the functions that read and write a room's values, each for its slot.
use hisohiso.Prelude.{Bool, true, Option}
use hisohiso.Text.{Text}
use hisohiso.Storage.Items.{
  Items, token, subscriber_jwt, handle, room_password, expected_knock, last_knock, setup_dismissed,
  created_by_me, get_value, set_value, clear_value, set_knock_message, get_flag, set_flag,
}

abbrev pub get_token : Text → Items → Option Text
get_token = get_value token

abbrev pub set_token : Text → Text → Items → Items
set_token = set_value token

abbrev pub clear_token : Text → Items → Items
clear_token = clear_value token

abbrev pub get_subscriber_jwt : Text → Items → Option Text
get_subscriber_jwt = get_value subscriber_jwt

abbrev pub set_subscriber_jwt : Text → Text → Items → Items
set_subscriber_jwt = set_value subscriber_jwt

abbrev pub clear_subscriber_jwt : Text → Items → Items
clear_subscriber_jwt = clear_value subscriber_jwt

abbrev pub get_handle : Text → Items → Option Text
get_handle = get_value handle

abbrev pub set_handle : Text → Text → Items → Items
set_handle = set_value handle

abbrev pub clear_handle : Text → Items → Items
clear_handle = clear_value handle

abbrev pub get_room_password : Text → Items → Option Text
get_room_password = get_value room_password

abbrev pub set_room_password : Text → Text → Items → Items
set_room_password = set_value room_password

abbrev pub clear_room_password : Text → Items → Items
clear_room_password = clear_value room_password

abbrev pub get_expected_knock_message : Text → Items → Option Text
get_expected_knock_message = get_value expected_knock

abbrev pub set_expected_knock_message : Text → Text → Items → Items
set_expected_knock_message = set_knock_message expected_knock

abbrev pub clear_expected_knock_message : Text → Items → Items
clear_expected_knock_message = clear_value expected_knock

abbrev pub get_last_knock_message : Text → Items → Option Text
get_last_knock_message = get_value last_knock

abbrev pub set_last_knock_message : Text → Text → Items → Items
set_last_knock_message = set_knock_message last_knock

abbrev pub clear_last_knock_message : Text → Items → Items
clear_last_knock_message = clear_value last_knock

abbrev pub get_room_setup_dismissed : Text → Items → Bool
get_room_setup_dismissed = get_flag setup_dismissed

abbrev pub set_room_setup_dismissed : Text → Bool → Items → Items
set_room_setup_dismissed = set_flag setup_dismissed

abbrev pub clear_room_setup_dismissed : Text → Items → Items
clear_room_setup_dismissed = clear_value setup_dismissed

abbrev pub get_room_created_by_me : Text → Items → Bool
get_room_created_by_me = get_flag created_by_me

abbrev pub set_room_created_by_me : Text → Items → Items
set_room_created_by_me room_hash = set_flag created_by_me room_hash true
