-- ===== src/Storage/Find.antt =====
-- app/src/lib/storage.ts: the list of rooms as a map from hashes.
use hisohiso.Prelude.{
  ℕ, suc, ◌+◌, ◌≤◌, ◌≡◌, refl, sym, ap, ◌∙◌, Bool, true, false, Option, none, some, List, [], ◌∷◌,
  ◌++◌, not, any, filter, find, map, if◌then◌else◌, arith, Bool-cases, Option-cases, inl, inr,
}
use hisohiso.Prelude.Sorted.{count, count-sort_desc, find-sort_desc}
use hisohiso.Text.{Text, text_eq}
use hisohiso.Text.Laws.{text_eq_iff}
use hisohiso.Message.Envelope.{RoomKind}
use hisohiso.Storage.Rooms.{
  StoredRoom, Item, missing, unreadable, rooms_item, read_rooms, has_hash, update_first, refreshed,
  created, backfilled, by_last_seen, upsert_room,
}

-- No two rooms have one hash.
abbrev pub Unique : List StoredRoom → Type 0
Unique rs = (h : Text) → count (has_hash h) rs ≤ 1

count-append :
    (h : Text) (rs ss : List StoredRoom)
    → count (has_hash h) (rs ++ ss) ≡ count (has_hash h) rs + count (has_hash h) ss
count-append h [] ss = omega arith
count-append h (r ∷ rs) ss = ground (arith, count-append h rs ss)

pub count-map :
    (h : Text) (f : StoredRoom → StoredRoom) (rs : List StoredRoom)
    → ((r : StoredRoom) → (f r).room_hash ≡ r.room_hash)
    → count (has_hash h) (map f rs) ≡ count (has_hash h) rs
count-map h f [] k = refl
count-map h f (r ∷ rs) k =
    rw (k r) (ap (λ n. if text_eq r.room_hash h then suc n else n) (count-map h f rs k))

pub count-filter :
    (h : Text) (p : StoredRoom → Bool) (rs : List StoredRoom)
    → count (has_hash h) (filter p rs) ≤ count (has_hash h) rs
count-filter h p [] = omega arith
count-filter h p (r ∷ rs) = ground (arith, count-filter h p rs)

count-update_first :
    (h j : Text) (f : StoredRoom → StoredRoom) (rs : List StoredRoom)
    → ((r : StoredRoom) → (f r).room_hash ≡ r.room_hash)
    → count (has_hash h) (update_first j f rs) ≡ count (has_hash h) rs
unfolding update_first
count-update_first h j f [] k = refl
count-update_first h j f (r ∷ rs) k = elim (Bool-cases (has_hash j r)) [
  | inl e ↦ rw (e, k r) refl
  | inr e ↦
      rw e (ap (λ n. if text_eq r.room_hash h then suc n else n) (count-update_first h j f rs k))
]

count-any :
    (h : Text) (rs : List StoredRoom) → any (has_hash h) rs ≡ false → count (has_hash h) rs ≡ 0
count-any h [] e = refl
count-any h (r ∷ rs) e = ground (arith, count-any h rs, e)

find-any :
    (h : Text) (rs : List StoredRoom) → any (has_hash h) rs ≡ false → find (has_hash h) rs ≡ none
find-any h [] e = refl
find-any h (r ∷ rs) e = ground (arith, find-any h rs, e)

find-append :
    (h : Text) (rs : List StoredRoom) (s : StoredRoom)
    → find (has_hash h) (rs ++ (s ∷ [])) ≡ (
        if any (has_hash h) rs then find (has_hash h) rs else if has_hash h s then some s else none)
find-append h [] s = refl
find-append h (r ∷ rs) s = ground (arith, find-append h rs s)

find-none :
    (h : Text) (rs : List StoredRoom) → find (has_hash h) rs ≡ none → any (has_hash h) rs ≡ false
find-none h [] e = refl
find-none h (r ∷ rs) e = elim (Bool-cases (has_hash h r)) [
  | inl this ↦ absurd (cc (rw this at e))
  | inr other ↦ rw other (find-none h rs (rw other at e))
]

abbrev pub applied : (StoredRoom → StoredRoom) → Option StoredRoom → Option StoredRoom
applied f none = none
applied f (some r) = some (f r)

text_eq_symm_false : (s t : Text) → text_eq t s ≡ false → text_eq s t ≡ false
text_eq_symm_false s t e = elim (Bool-cases (text_eq s t)) [
  | inl same ↦ absurd (cc (e, (text_eq_iff t s).1 (sym ((text_eq_iff s t).0 same))))
  | inr other ↦ other
]

pub find-update_first :
    (h j : Text) (f : StoredRoom → StoredRoom) (rs : List StoredRoom)
    → ((r : StoredRoom) → (f r).room_hash ≡ r.room_hash)
    → find (has_hash j) (update_first h f rs)
      ≡ (if text_eq h j then applied f (find (has_hash j) rs) else find (has_hash j) rs)
unfolding update_first
find-update_first h j f [] k = ground arith
find-update_first h j f (r ∷ rs) k = elim (Bool-cases (has_hash h r)) [
  | inl e ↦
      let same : text_eq r.room_hash j ≡ text_eq h j =
        ap (λ t. text_eq t j) ((text_eq_iff r.room_hash h).0 e) in
      rw e (
        simp (k r, same)
          (elim (Bool-cases (text_eq h j)) [ inl g ↦ rw g refl | inr g ↦ rw g refl ]))
  | inr e ↦ rw e (elim (Bool-cases (text_eq r.room_hash j)) [
    | inl g ↦
        let apart : text_eq h j ≡ false =
          ap (λ t. text_eq h t) (sym ((text_eq_iff r.room_hash j).0 g))
          ∙ text_eq_symm_false h r.room_hash e in
        rw (g, apart) refl
    | inr g ↦ rw g (find-update_first h j f rs k)
  ])
]

pub find-map :
    (j : Text) (f : StoredRoom → StoredRoom) (rs : List StoredRoom)
    → ((r : StoredRoom) → (f r).room_hash ≡ r.room_hash)
    → find (has_hash j) (map f rs) ≡ applied f (find (has_hash j) rs)
find-map j f [] k = refl
find-map j f (r ∷ rs) k =
    simp (k r)
      (elim (Bool-cases (has_hash j r)) [ inl e ↦ rw e refl | inr e ↦ rw e (find-map j f rs k) ])

pub find-read_rooms :
    (j : Text) (rs : List StoredRoom)
    → find (has_hash j) (read_rooms (rooms_item rs)) ≡ applied backfilled (find (has_hash j) rs)
unfolding read_rooms
find-read_rooms j rs = find-map j backfilled rs (λ r. refl)

applied-backfilled :
    (o : Option StoredRoom) → applied backfilled (applied backfilled o) ≡ applied backfilled o
applied-backfilled none = refl
applied-backfilled (some r) = refl

-- What is read once is read the same again.
pub find-read_rooms_again :
    (j : Text) (item : Item)
    → applied backfilled (find (has_hash j) (read_rooms item)) ≡ find (has_hash j) (read_rooms item)
unfolding read_rooms
find-read_rooms_again j missing = refl
find-read_rooms_again j unreadable = refl
find-read_rooms_again j (rooms_item rs) =
    ap (applied backfilled) (find-map j backfilled rs (λ r. refl))
    ∙ applied-backfilled (find (has_hash j) rs)
    ∙ sym (find-map j backfilled rs (λ r. refl))

pub read_rooms-Unique : (rs : List StoredRoom) → Unique rs → Unique (read_rooms (rooms_item rs))
unfolding read_rooms
read_rooms-Unique rs u h = omega (arith, u h, count-map h backfilled rs (λ r. refl))

pub sorted-Unique : (rs : List StoredRoom) → Unique rs → Unique (by_last_seen rs)
sorted-Unique rs u h =
    omega (arith, u h, count-sort_desc (λ (r : StoredRoom). r.last_seen) (has_hash h) rs)

pub update_first-Unique :
    (j : Text) (f : StoredRoom → StoredRoom) (rs : List StoredRoom)
    → ((r : StoredRoom) → (f r).room_hash ≡ r.room_hash)
    → Unique rs
    → Unique (update_first j f rs)
update_first-Unique j f rs k u h = omega (arith, u h, count-update_first h j f rs k)

pub snoc-Unique :
    (rs : List StoredRoom) (s : StoredRoom)
    → any (has_hash s.room_hash) rs ≡ false
    → Unique rs
    → Unique (rs ++ (s ∷ []))
snoc-Unique rs s new u h = elim (Bool-cases (text_eq s.room_hash h)) [
  | inl same ↦
      let at_h : s.room_hash ≡ h = (text_eq_iff s.room_hash h).0 same in
      let gone : any (has_hash h) rs ≡ false = ap (λ t. any (has_hash t) rs) (sym at_h) ∙ new in
      ground (arith, count-append h rs (s ∷ []), count-any h rs gone)
  | inr other ↦ ground (arith, count-append h rs (s ∷ []), u h)
]

-- What an upsert writes for a room, found or not.
abbrev pub upserted :
    ℕ
    → Text
    → Text
    → Text
    → Option Text
    → Option RoomKind
    → Option Text
    → Option StoredRoom
    → StoredRoom
upserted now color h secret handle kind link none = created now color h secret handle kind link
upserted now color h secret handle kind link (some r) = refreshed now secret handle kind link r

module _ (now : ℕ) (color h secret : Text) (handle : Option Text) (kind : Option RoomKind)
    (link : Option Text) where
  abbrev pub placed : List StoredRoom → List StoredRoom
  placed rooms =
      if any (has_hash h) rooms
      then update_first h (refreshed now secret handle kind link) rooms
      else rooms ++ (created now color h secret handle kind link ∷ [])

  pub placed-Unique : (rooms : List StoredRoom) → Unique rooms → Unique (placed rooms)
  placed-Unique rooms u = elim (Bool-cases (any (has_hash h) rooms)) [
    | inl e ↦
        rw e (update_first-Unique h (refreshed now secret handle kind link) rooms (λ r. refl) u)
    | inr e ↦ rw e (snoc-Unique rooms (created now color h secret handle kind link) e u)
  ]

  find-placed :
      (j : Text) (rooms : List StoredRoom)
      → find (has_hash j) (placed rooms) ≡ (
          if text_eq h j
          then some (upserted now color h secret handle kind link (find (has_hash j) rooms))
          else find (has_hash j) rooms)
  find-placed j rooms = elim (Bool-cases (text_eq h j)) [
    | inr other ↦ rw other (elim (Bool-cases (any (has_hash h) rooms)) [
      | inl e ↦ rw e (find-update_first h j fill rooms (λ r. refl) ∙ rw other refl)
      | inr e ↦ rw e (find-append j rooms fresh ∙ rw other (missing_or rooms))
    ])
    | inl same ↦
        let at_j : h ≡ j = (text_eq_iff h j).0 same in
        rw same (elim (Option-cases (find (has_hash j) rooms)) [
          | inl e ↦
              let gone : any (has_hash h) rooms ≡ false =
                ap (λ t. any (has_hash t) rooms) at_j ∙ find-none j rooms e in
              let gone_j : any (has_hash j) rooms ≡ false = find-none j rooms e in
              rw (gone, e) (find-append j rooms fresh ∙ rw (gone_j, same) refl)
          | inr (r, e) ↦ elim (Bool-cases (any (has_hash h) rooms)) [
            | inl there ↦
                rw there (find-update_first h j fill rooms (λ r. refl) ∙ rw (same, e) refl)
            | inr not_there ↦
                let gone_j : any (has_hash j) rooms ≡ false =
                  ap (λ t. any (has_hash t) rooms) (sym at_j) ∙ not_there in
                absurd (cc (e, find-any j rooms gone_j))
          ]
        ])
  ]
    where
      fill : StoredRoom → StoredRoom
      fill = refreshed now secret handle kind link

      fresh : StoredRoom
      fresh = created now color h secret handle kind link

      missing_or :
          (rs : List StoredRoom)
          → (if any (has_hash j) rs then find (has_hash j) rs else none) ≡ find (has_hash j) rs
      missing_or rs = elim (Bool-cases (any (has_hash j) rs)) [
        | inl e ↦ rw e refl
        | inr e ↦ rw e (sym (find-any j rs e))
      ]

  -- Of a list with one room for each hash: after an upsert of the room `h`, reading gives for `h` the
  -- room that was stored there brought up to date, or a new one if none was, and for every other hash
  -- what it gave before. Sorting the list changes no lookup.
  pub find-upsert_room :
      (j : Text) (item : Item)
      → Unique (read_rooms item)
      → find (has_hash j) (read_rooms (upsert_room now color h secret handle kind link item)) ≡ (
          if text_eq h j
          then some (
              backfilled (
                upserted now color h secret handle kind link (find (has_hash j) (read_rooms item))))
          else find (has_hash j) (read_rooms item))
  unfolding upsert_room
  find-upsert_room j item u =
      let rooms = read_rooms item in
      find-read_rooms j (by_last_seen (placed rooms))
      ∙ ap (applied backfilled) (
          find-sort_desc (λ (r : StoredRoom). r.last_seen) (has_hash j) (placed rooms)
            (placed-Unique rooms u j)
          ∙ find-placed j rooms)
      ∙ spread (text_eq h j)
    where
      spread :
          (b : Bool)
          → applied backfilled (
              if b
              then some (
                  upserted now color h secret handle kind link
                    (find (has_hash j) (read_rooms item)))
              else find (has_hash j) (read_rooms item))
            ≡ (if b
                then some (
                    backfilled (
                      upserted now color h secret handle kind link
                        (find (has_hash j) (read_rooms item))))
                else find (has_hash j) (read_rooms item))
      spread true = refl
      spread false = find-read_rooms_again j item

pub find-sorted :
    (j : Text) (rs : List StoredRoom)
    → Unique rs
    → find (has_hash j) (by_last_seen rs) ≡ find (has_hash j) rs
find-sorted j rs u = find-sort_desc (λ (r : StoredRoom). r.last_seen) (has_hash j) rs (u j)

pub find-filter :
    (h j : Text) (rs : List StoredRoom)
    → text_eq h j ≡ false
    → find (has_hash j) (filter (λ (r : StoredRoom). not (has_hash h r)) rs) ≡ find (has_hash j) rs
find-filter h j [] apart = refl
find-filter h j (r ∷ rs) apart = elim (Bool-cases (has_hash h r)) [
  | inl e ↦
      let other : text_eq r.room_hash j ≡ false =
        ap (λ t. text_eq t j) ((text_eq_iff r.room_hash h).0 e) ∙ apart in
      rw (e, other) (find-filter h j rs apart)
  | inr e ↦ rw e (elim (Bool-cases (has_hash j r)) [
    | inl this ↦ rw this refl
    | inr other ↦ rw other (find-filter h j rs apart)
  ])
]
