-- ===== src/Storage/Rooms.antt =====
-- app/src/lib/storage.ts: the list of rooms.
--
-- The stored item is told by what `JSON.parse` makes of it: nothing or an empty text, what does not
-- parse or is no array, or an array of rooms. Absent and null fields read alike. A colour that
-- `generatePastelColor` would draw is an argument, and so is the time in whole seconds.
use hisohiso.Prelude.{
  ℕ, Bool, true, false, not, Option, none, some, List, [], ◌∷◌, ◌++◌, any, filter, find, map,
  if◌then◌else◌,
}
use hisohiso.Prelude.Sorted.{sort_desc}
use hisohiso.Text.{Text, text_eq}
use hisohiso.Message.Envelope.{is_empty, RoomKind, chat, control, agent}

pub record StoredRoom : Type 0 where
  pub room_hash : Text
  pub room_secret : Text
  pub last_seen : ℕ
  -- None where the stored value is no room kind.
  pub kind : Option RoomKind
  pub handle : Option Text
  pub nickname : Option Text
  pub auto_title : Option Text
  pub color : Option Text
  pub control_room_hash : Option Text

pub data Item : Type 0 where
  missing unreadable : Item
  rooms_item : List StoredRoom → Item

abbrev pub kind_or_chat : Option RoomKind → RoomKind
kind_or_chat none = chat
kind_or_chat (some k) = k

abbrev pub backfilled : StoredRoom → StoredRoom
backfilled r = record r { kind = some (kind_or_chat r.kind) }

unfoldable pub read_rooms : Item → List StoredRoom
read_rooms missing = []
read_rooms unreadable = []
read_rooms (rooms_item rs) = map backfilled rs

abbrev pub has_hash : Text → StoredRoom → Bool
has_hash h r = text_eq r.room_hash h

-- `rooms.find(...)` followed by an assignment to fields of what it found.
unfoldable pub update_first : Text → (StoredRoom → StoredRoom) → List StoredRoom → List StoredRoom
update_first h f [] = []
update_first h f (r ∷ rs) =
    let rest = update_first h f rs in if has_hash h r then f r ∷ rs else r ∷ rest

abbrev pub is_chat : RoomKind → Bool
is_chat chat = true
is_chat control = false
is_chat agent = false

-- `kind && kind !== 'chat'`
abbrev pub sharpened : Option RoomKind → Option RoomKind → Option RoomKind
sharpened none old = old
sharpened (some k) old = if is_chat k then old else some k

abbrev pub blank : Option Text → Bool
blank none = true
blank (some t) = is_empty t

-- `controlRoomHash && !existing.controlRoomHash`
abbrev pub linked : Option Text → Option Text → Option Text
linked link old = if not (blank link) then (if blank old then link else old) else old

abbrev pub given_or {ℓ} : {A : Type ℓ} → Option A → Option A → Option A
given_or none old = old
given_or (some x) old = some x

abbrev pub refreshed :
    ℕ → Text → Option Text → Option RoomKind → Option Text → StoredRoom → StoredRoom
refreshed now secret handle kind link r = record r {
  last_seen = now;
  room_secret = secret;
  handle = given_or handle r.handle;
  kind = sharpened kind r.kind;
  control_room_hash = linked link r.control_room_hash;
}

abbrev pub created :
    ℕ → Text → Text → Text → Option Text → Option RoomKind → Option Text → StoredRoom
created now color h secret handle kind link = record {
  room_hash = h;
  room_secret = secret;
  last_seen = now;
  kind = some (kind_or_chat kind);
  handle = handle;
  nickname = none;
  auto_title = none;
  color = some color;
  control_room_hash = link;
}

abbrev pub by_last_seen : List StoredRoom → List StoredRoom
by_last_seen = sort_desc (λ (r : StoredRoom). r.last_seen)

-- `upsertRoom`
unfoldable pub upsert_room :
    ℕ → Text → Text → Text → Option Text → Option RoomKind → Option Text → Item → Item
unfolding read_rooms update_first sort_desc
upsert_room now color h secret handle kind link item =
    let rooms = read_rooms item in
    rooms_item (
      by_last_seen (
        if any (has_hash h) rooms
        then update_first h (refreshed now secret handle kind link) rooms
        else rooms ++ (created now color h secret handle kind link ∷ [])))

abbrev pub colored : (Text → Text) → StoredRoom → StoredRoom
colored draw r = if blank r.color then record r { color = some (draw r.room_hash) } else r

-- `listRooms`: the rooms in order, and the item after it. `draw` is the colour drawn for a room.
unfoldable pub list_rooms : (Text → Text) → Item → List StoredRoom × Item
unfolding read_rooms sort_desc
list_rooms draw item =
    let rooms = read_rooms item in
    let filled = map (colored draw) rooms in
    (
      by_last_seen filled,
      if any (λ (r : StoredRoom). blank r.color) rooms then rooms_item filled else item,
    )

-- `removeRoom`
unfoldable pub remove_room : Text → Item → Item
unfolding read_rooms
remove_room h item = rooms_item (filter (λ (r : StoredRoom). not (has_hash h r)) (read_rooms item))

-- An update of a stored room; a room that is not stored is not written.
unfoldable pub update_room : Text → (StoredRoom → StoredRoom) → Item → Item
unfolding read_rooms update_first
update_room h f item =
    let rooms = read_rooms item in
    if any (has_hash h) rooms then rooms_item (update_first h f rooms) else item

-- `updateRoomHandle`
abbrev pub update_room_handle : ℕ → Text → Text → Item → Item
update_room_handle now h handle =
    update_room h (λ (r : StoredRoom). record r { handle = some handle; last_seen = now })

-- `nickname || null`
abbrev pub or_null : Text → Option Text
or_null t = if is_empty t then none else some t

-- `updateRoomNickname`
abbrev pub update_room_nickname : Text → Text → Item → Item
update_room_nickname h nickname =
    update_room h (λ (r : StoredRoom). record r { nickname = or_null nickname })

-- `updateRoomAutoTitle`
abbrev pub update_room_auto_title : Text → Text → Item → Item
update_room_auto_title h title =
    update_room h (λ (r : StoredRoom). record r { auto_title = or_null title })

abbrev pub find_room : Text → Item → Option StoredRoom
find_room h item = find (has_hash h) (read_rooms item)

-- `getRoomAutoTitle`
abbrev pub get_room_auto_title : Text → Item → Option Text
get_room_auto_title h item = elim (find_room h item) [ none ↦ none | some r ↦ r.auto_title ]

-- `getRoomNickname`
abbrev pub get_room_nickname : Text → Item → Option Text
get_room_nickname h item = elim (find_room h item) [ none ↦ none | some r ↦ r.nickname ]

-- `getRoomKind`
unfoldable pub get_room_kind : Text → Item → RoomKind
unfolding read_rooms
get_room_kind h item = elim (find (has_hash h) (read_rooms item)) [
  | none ↦ chat
  | some r ↦ kind_or_chat r.kind
]

abbrev pub kind_eq : RoomKind → RoomKind → Bool
kind_eq chat chat = true
kind_eq control control = true
kind_eq agent agent = true
kind_eq j k = false

abbrev pub has_kind : RoomKind → Option StoredRoom → Bool
has_kind k none = true
has_kind k (some r) = kind_eq (kind_or_chat r.kind) k

-- `setRoomKind`
unfoldable pub set_room_kind : Text → RoomKind → Item → Item
unfolding update_room
set_room_kind h k item =
    if is_chat k
    then item
    else if has_kind k (find (has_hash h) (read_rooms item))
    then item
    else update_room h (λ (r : StoredRoom). record r { kind = some k }) item

abbrev pub color_or : Text → Option Text → Text
color_or draw none = draw
color_or draw (some c) = if is_empty c then draw else c

-- `getRoomColor`: the colour, and the item after it.
unfoldable pub get_room_color : Text → Text → Item → Text × Item
unfolding update_room
get_room_color draw h item = elim (find (has_hash h) (read_rooms item)) [
  | none ↦ (draw, item)
  | some r ↦ (
    color_or draw r.color,
    if blank r.color
        then update_room h (λ (s : StoredRoom). record s { color = some draw }) item
        else item,
  )
]
