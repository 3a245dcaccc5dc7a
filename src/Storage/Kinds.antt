-- ===== src/Storage/Kinds.antt =====
-- app/src/lib/storage.ts: the list of rooms under any sequence of operations.
use hisohiso.Prelude.{
  ℕ, ◌≤◌, ◌≡◌, refl, ap, ◌∙◌, Bool, true, false, not, Option, none, some, List, [], ◌∷◌, any, find,
  map, all, if◌then◌else◌, arith, Bool-cases, Option-cases, &&-true, inl, inr,
}
use hisohiso.Prelude.Sorted.{count}
use hisohiso.Text.{Text, text_eq}
use hisohiso.Message.Envelope.{RoomKind, chat}
use hisohiso.Storage.Rooms.{
  StoredRoom, Item, missing, rooms_item, read_rooms, has_hash, update_first, backfilled,
  upsert_room, list_rooms, colored, blank, remove_room, update_room, update_room_handle,
  update_room_nickname, update_room_auto_title, get_room_kind, set_room_kind, get_room_color,
  is_chat, kind_or_chat, sharpened, has_kind,
}
use hisohiso.Storage.Find.{
  Unique, read_rooms-Unique, sorted-Unique, update_first-Unique, placed-Unique, count-map,
  count-filter, find-upsert_room, find-update_first, find-map, find-read_rooms, applied, upserted,
  find-filter,
}

pub data Op : Type 0 where
  upsert :
      (now : ℕ) (color h secret : Text) (handle : Option Text) (kind : Option RoomKind)
      (link : Option Text)
      → Op
  list : (draw : Text → Text) → Op
  remove : (h : Text) → Op
  set_handle : (now : ℕ) (h handle : Text) → Op
  set_nickname set_auto_title : (h text : Text) → Op
  set_kind : (h : Text) (kind : RoomKind) → Op
  read_color : (draw h : Text) → Op

unfoldable pub run_op : Op → Item → Item
run_op (upsert now color h secret handle kind link) item =
    upsert_room now color h secret handle kind link item
run_op (list draw) item = (list_rooms draw item).1
run_op (remove h) item = remove_room h item
run_op (set_handle now h handle) item = update_room_handle now h handle item
run_op (set_nickname h text) item = update_room_nickname h text item
run_op (set_auto_title h text) item = update_room_auto_title h text item
run_op (set_kind h kind) item = set_room_kind h kind item
run_op (read_color draw h) item = (get_room_color draw h item).1

unfoldable pub run_ops : List Op → Item → Item
unfolding run_op
run_ops [] item = item
run_ops (op ∷ ops) item = run_ops ops (run_op op item)

update_room-Unique :
    (h : Text) (f : StoredRoom → StoredRoom) (item : Item)
    → ((r : StoredRoom) → (f r).room_hash ≡ r.room_hash)
    → Unique (read_rooms item)
    → Unique (read_rooms (update_room h f item))
unfolding update_room
update_room-Unique h f item k u = elim (Bool-cases (any (has_hash h) (read_rooms item))) [
  | inl e ↦
      rw (update_room, e)
        (read_rooms-Unique (update_first h f (read_rooms item))
          (update_first-Unique h f (read_rooms item) k u))
  | inr e ↦ rw (update_room, e) u
]

if-Unique :
    (b : Bool) (i j : Item)
    → Unique (read_rooms i)
    → Unique (read_rooms j)
    → Unique (read_rooms (if b then i else j))
if-Unique true i j u v = u
if-Unique false i j u v = v

-- A read of a colour leaves the item or stores the colour that was drawn.
get_room_color_lem :
    (P : Item → Type 0) (draw h : Text) (item : Item)
    → P item
    → P (update_room h (λ (s : StoredRoom). record s { color = some draw }) item)
    → P (get_room_color draw h item).1
unfolding get_room_color
get_room_color_lem P draw h item same stored =
    elim (Option-cases (find (has_hash h) (read_rooms item))) [
      | inl e ↦ rw (get_room_color, e) same
      | inr (r, e) ↦ rw (get_room_color, e) (either (blank r.color))
    ]
  where
    either :
        (b : Bool)
        → P (
            if b
            then update_room h (λ (s : StoredRoom). record s { color = some draw }) item
            else item)
    either true = stored
    either false = same

run_op-Unique :
    (op : Op) (item : Item) → Unique (read_rooms item) → Unique (read_rooms (run_op op item))
unfolding run_op upsert_room list_rooms remove_room set_room_kind
run_op-Unique (upsert now color h secret handle kind link) item u =
    read_rooms-Unique _
      (sorted-Unique _ (placed-Unique now color h secret handle kind link (read_rooms item) u))
run_op-Unique (list draw) item u =
    if-Unique _ (rooms_item (map (colored draw) (read_rooms item))) item
      (read_rooms-Unique (map (colored draw) (read_rooms item))
        (λ j. omega (arith, u j, count-map j (colored draw) (read_rooms item) (λ r. ground arith))))
      u
run_op-Unique (remove h) item u = read_rooms-Unique _ (λ j.
    omega (arith, u j, count-filter j (λ (r : StoredRoom). not (has_hash h r)) (read_rooms item)))
run_op-Unique (set_handle now h handle) item u = update_room-Unique h _ item (λ r. refl) u
run_op-Unique (set_nickname h text) item u = update_room-Unique h _ item (λ r. refl) u
run_op-Unique (set_auto_title h text) item u = update_room-Unique h _ item (λ r. refl) u
run_op-Unique (set_kind h kind) item u = if-Unique (is_chat kind) item _ u (
    if-Unique (has_kind kind (find (has_hash h) (read_rooms item))) item _ u
      (update_room-Unique h (λ (r : StoredRoom). record r { kind = some kind }) item (λ r. refl) u))
run_op-Unique (read_color draw h) item u =
    get_room_color_lem (λ i. Unique (read_rooms i)) draw h item u
      (update_room-Unique h (λ (s : StoredRoom). record s { color = some draw }) item (λ s. refl) u)

pub run_ops-Unique :
    (ops : List Op) (item : Item)
    → Unique (read_rooms item)
    → Unique (read_rooms (run_ops ops item))
unfolding run_ops
run_ops-Unique [] item u = u
run_ops-Unique (op ∷ ops) item u = run_ops-Unique ops (run_op op item) (run_op-Unique op item u)

pub missing-Unique : Unique (read_rooms missing)
unfolding read_rooms
missing-Unique h = omega arith

abbrev pub removes : Text → Op → Bool
removes j (remove h) = text_eq h j
removes j op = false

-- Whether a room is there and is known to be no plain chat.
abbrev sharp : Option StoredRoom → Bool
sharp none = false
sharp (some r) = not (is_chat (kind_or_chat r.kind))

abbrev IsSharp : Text → Item → Type 0
IsSharp j item = sharp (find (has_hash j) (read_rooms item)) ≡ true

sharp-backfilled : (o : Option StoredRoom) → sharp (applied backfilled o) ≡ sharp o
sharp-backfilled none = refl
sharp-backfilled (some r) = refl

IsSharp-rooms_item :
    (j : Text) (rs : List StoredRoom)
    → sharp (find (has_hash j) rs) ≡ true
    → IsSharp j (rooms_item rs)
IsSharp-rooms_item j rs h =
    ap sharp (find-read_rooms j rs) ∙ sharp-backfilled (find (has_hash j) rs) ∙ h

sharp-applied :
    (f : StoredRoom → StoredRoom) (o : Option StoredRoom)
    → ((r : StoredRoom) → sharp (some r) ≡ true → sharp (some (f r)) ≡ true)
    → sharp o ≡ true
    → sharp (applied f o) ≡ true
sharp-applied f none k h = h
sharp-applied f (some r) k h = k r h

IsSharp-if :
    (j : Text) (b : Bool) (x y : Item) → IsSharp j x → IsSharp j y → IsSharp j (if b then x else y)
IsSharp-if j true x y h k = h
IsSharp-if j false x y h k = k

update_room-IsSharp :
    (j h : Text) (f : StoredRoom → StoredRoom) (item : Item)
    → ((r : StoredRoom) → (f r).room_hash ≡ r.room_hash)
    → ((r : StoredRoom) → sharp (some r) ≡ true → sharp (some (f r)) ≡ true)
    → IsSharp j item
    → IsSharp j (update_room h f item)
unfolding update_room
update_room-IsSharp j h f item k keeps s = elim (Bool-cases (any (has_hash h) (read_rooms item))) [
  | inr e ↦ rw (update_room, e) s
  | inl e ↦
      rw (update_room, e)
        (IsSharp-rooms_item j (update_first h f (read_rooms item))
          (ap sharp (find-update_first h j f (read_rooms item) k) ∙ either (text_eq h j)))
]
  where
    either :
        (b : Bool)
        → sharp (
            if b
            then applied f (find (has_hash j) (read_rooms item))
            else find (has_hash j) (read_rooms item))
          ≡ true
    either true = sharp-applied f (find (has_hash j) (read_rooms item)) keeps s
    either false = s

sharpened-sharp :
    (kind old : Option RoomKind)
    → not (is_chat (kind_or_chat old)) ≡ true
    → not (is_chat (kind_or_chat (sharpened kind old))) ≡ true
sharpened-sharp none old h = h
sharpened-sharp (some k) old h = elim (Bool-cases (is_chat k)) [
  | inl e ↦ rw e h
  | inr e ↦ rw (e, e) refl
]

upserted-sharp :
    (now : ℕ) (color h secret : Text) (handle : Option Text) (kind : Option RoomKind)
    (link : Option Text) (o : Option StoredRoom)
    → sharp o ≡ true
    → sharp (some (backfilled (upserted now color h secret handle kind link o))) ≡ true
upserted-sharp now color h secret handle kind link none e = absurd (cc (e))
upserted-sharp now color h secret handle kind link (some r) e = sharpened-sharp kind r.kind e

run_op-IsSharp :
    (j : Text) (op : Op) (item : Item)
    → removes j op ≡ false
    → Unique (read_rooms item)
    → IsSharp j item
    → IsSharp j (run_op op item)
unfolding run_op list_rooms remove_room set_room_kind
run_op-IsSharp j (upsert now color h secret handle kind link) item keeps u s =
    ap sharp (find-upsert_room now color h secret handle kind link j item u) ∙ either (text_eq h j)
  where
    either :
        (b : Bool)
        → sharp (
            if b
            then some (
                backfilled (
                  upserted now color h secret handle kind link
                    (find (has_hash j) (read_rooms item))))
            else find (has_hash j) (read_rooms item))
          ≡ true
    either true =
        upserted-sharp now color h secret handle kind link (find (has_hash j) (read_rooms item)) s
    either false = s
run_op-IsSharp j (list draw) item keeps u s =
    IsSharp-if j _ (rooms_item (map (colored draw) (read_rooms item))) item
      (IsSharp-rooms_item j (map (colored draw) (read_rooms item)) (
        ap sharp (find-map j (colored draw) (read_rooms item) (λ r. ground arith))
        ∙ sharp-applied (colored draw) (find (has_hash j) (read_rooms item))
            (λ r h. ground (arith, h)) s))
      s
run_op-IsSharp j (remove h) item keeps u s =
    IsSharp-rooms_item j _ (ap sharp (find-filter h j (read_rooms item) keeps) ∙ s)
run_op-IsSharp j (set_handle now h handle) item keeps u s =
    update_room-IsSharp j h _ item (λ r. refl) (λ r e. e) s
run_op-IsSharp j (set_nickname h text) item keeps u s =
    update_room-IsSharp j h _ item (λ r. refl) (λ r e. e) s
run_op-IsSharp j (set_auto_title h text) item keeps u s =
    update_room-IsSharp j h _ item (λ r. refl) (λ r e. e) s
run_op-IsSharp j (set_kind h kind) item keeps u s = elim (Bool-cases (is_chat kind)) [
  | inl plain ↦ rw (set_room_kind, plain) s
  | inr special ↦
      rw (set_room_kind, special)
        (IsSharp-if j (has_kind kind (find (has_hash h) (read_rooms item))) item _ s (
          update_room-IsSharp j h (λ (r : StoredRoom). record r { kind = some kind }) item
            (λ r. refl) (λ r e. rw special refl) s))
]
run_op-IsSharp j (read_color draw h) item keeps u s = get_room_color_lem (IsSharp j) draw h item s (
    update_room-IsSharp j h (λ (t : StoredRoom). record t { color = some draw }) item (λ t. refl)
      (λ t e. e) s)

run_ops-IsSharp :
    (j : Text) (ops : List Op) (item : Item)
    → all (λ op. not (removes j op)) ops ≡ true
    → Unique (read_rooms item)
    → IsSharp j item
    → IsSharp j (run_ops ops item)
unfolding run_ops
run_ops-IsSharp j [] item keeps u s = s
run_ops-IsSharp j (op ∷ ops) item keeps u s =
    let (this, rest) = &&-true (not (removes j op)) (all (λ op. not (removes j op)) ops) keeps in
    run_ops-IsSharp j ops (run_op op item) rest (run_op-Unique op item u)
      (run_op-IsSharp j op item (ground (arith, this)) u s)

IsSharp-of : (j : Text) (item : Item) → is_chat (get_room_kind j item) ≡ false → IsSharp j item
unfolding get_room_kind
IsSharp-of j item h = go (find (has_hash j) (read_rooms item)) h
  where
    go :
        (o : Option StoredRoom)
        → is_chat (elim o [ none ↦ chat | some r ↦ kind_or_chat r.kind ]) ≡ false
        → sharp o ≡ true
    go none e = absurd (cc (e))
    go (some r) e = rw e refl

of_sharp : (j : Text) (item : Item) → IsSharp j item → is_chat (get_room_kind j item) ≡ false
unfolding get_room_kind
of_sharp j item h = go (find (has_hash j) (read_rooms item)) h
  where
    go :
        (o : Option StoredRoom)
        → sharp o ≡ true
        → is_chat (elim o [ none ↦ chat | some r ↦ kind_or_chat r.kind ]) ≡ false
    go none e = absurd (cc (e))
    go (some r) e = ground (arith, e)

-- From an empty store, after any operations on the list of rooms, no two rooms have one hash.
pub run_ops_unique :
    (ops : List Op) (h : Text) → count (has_hash h) (read_rooms (run_ops ops missing)) ≤ 1
run_ops_unique ops = run_ops-Unique ops missing missing-Unique

-- A room whose kind was learned as control or agent, by whatever operations on an empty store, is
-- never a plain chat again, whatever operations follow, as long as it is not removed.
pub run_ops_keep_kind :
    (before after : List Op) (h : Text)
    → all (λ op. not (removes h op)) after ≡ true
    → is_chat (get_room_kind h (run_ops before missing)) ≡ false
    → is_chat (get_room_kind h (run_ops after (run_ops before missing))) ≡ false
run_ops_keep_kind before after h keeps known = of_sharp h (run_ops after (run_ops before missing)) (
    run_ops-IsSharp h after (run_ops before missing) keeps
      (run_ops-Unique before missing missing-Unique) (IsSharp-of h (run_ops before missing) known))
