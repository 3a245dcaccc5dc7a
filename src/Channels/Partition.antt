-- ===== src/Channels/Partition.antt =====
-- app/src/lib/room-grouping.ts: the groups and the orphans, counted.
use hisohiso.Prelude.{
  ℕ, suc, ◌+◌, Bool, true, false, not, ◌||◌, Option, none, some, List, [], ◌∷◌, map, filter, any,
  length, if◌then◌else◌, ◌≡◌, refl, sym, ap, ◌∙◌, Bool-cases, inl, inr, All, arith,
}
use hisohiso.Text.{Text, text_eq}
use hisohiso.Text.Laws.{text_eq_iff}
use hisohiso.Message.Envelope.{is_empty}
use hisohiso.Channels.Groups.{
  StoredRoom, ControlGroup, is_control, is_agent, same_hash, is_under, blank, is_orphan, group,
  group_open_channels,
}

-- How many agents the groups show.
abbrev pub shown : List ControlGroup → ℕ
shown [] = 0
shown (g ∷ gs) = length g.agents + shown gs

-- Control rooms with hashes that are not empty and differ from one another.
abbrev pub Proper : List StoredRoom → Type 0
Proper [] = Unit
Proper (c ∷ cs) =
    (is_empty c.room_hash ≡ false)
    × All (λ (d : StoredRoom). text_eq d.room_hash c.room_hash ≡ false) cs
    × Proper cs

-- The control rooms that a hash names.
abbrev named : Option Text → List StoredRoom → ℕ
named h [] = 0
named h (c ∷ cs) = let rest = named h cs in if same_hash h c.room_hash then suc rest else rest

named-others :
    (c : StoredRoom) (cs : List StoredRoom) (h : Text)
    → All (λ (d : StoredRoom). text_eq d.room_hash c.room_hash ≡ false) cs
    → h ≡ c.room_hash
    → named (some h) cs ≡ 0
named-others c [] h apart e = refl
named-others c (d ∷ cs) h apart e = elim (Bool-cases (text_eq h d.room_hash)) [
  | inl same ↦
      let clash : d.room_hash ≡ c.room_hash = sym ((text_eq_iff h d.room_hash).0 same) ∙ e in
      absurd (cc (apart.0, (text_eq_iff d.room_hash c.room_hash).1 clash))
  | inr other ↦ rw other (named-others c cs h apart.1 e)
]

abbrev one_if : Bool → ℕ
one_if b = if b then 1 else 0

named_lem :
    (h : Text) (cs : List StoredRoom)
    → Proper cs
    → named (some h) cs ≡ one_if (any (λ (c : StoredRoom). text_eq h c.room_hash) cs)
named_lem h [] p = refl
named_lem h (c ∷ cs) p = elim (Bool-cases (text_eq h c.room_hash)) [
  | inl e ↦ rw e (ap suc (named-others c cs h p.1 ((text_eq_iff h c.room_hash).0 e)))
  | inr e ↦ rw e (named_lem h cs p.2)
]

unknown :
    (h : Text) (cs : List StoredRoom)
    → Proper cs
    → is_empty h ≡ true
    → any (λ (c : StoredRoom). text_eq h c.room_hash) cs ≡ false
unknown h [] p e = refl
unknown h (c ∷ cs) p e = elim (Bool-cases (text_eq h c.room_hash)) [
  | inl same ↦ absurd (cc (ap is_empty ((text_eq_iff h c.room_hash).0 same), e, p.0))
  | inr other ↦ rw other (unknown h cs p.2 e)
]

named-none : (cs : List StoredRoom) → named none cs ≡ 0
named-none [] = refl
named-none (c ∷ cs) = named-none cs

-- A room is named by one control room, or is an orphan.
one_place :
    (a : StoredRoom) (cs : List StoredRoom)
    → Proper cs
    → named a.control_room_hash cs + one_if (is_orphan cs a) ≡ 1
one_place a cs p = go a.control_room_hash
  where
    go :
        (h : Option Text)
        → named h cs
            + one_if (blank h || not (any (λ (c : StoredRoom). same_hash h c.room_hash) cs))
          ≡ 1
    go none = rw (named-none cs) refl
    go (some h) = elim (Bool-cases (is_empty h)) [
      | inl e ↦ rw (named_lem h cs p) (rw (unknown h cs p e) (rw e refl))
      | inr e ↦
          rw (named_lem h cs p) (rw e (split (any (λ (c : StoredRoom). text_eq h c.room_hash) cs)))
    ]
      where
        split : (b : Bool) → one_if b + one_if (not b) ≡ 1
        split true = refl
        split false = refl

length-filter-cons :
    (p : StoredRoom → Bool) (a : StoredRoom) (as' : List StoredRoom)
    → length (filter p (a ∷ as')) ≡ one_if (p a) + length (filter p as')
length-filter-cons p a as' = elim (Bool-cases (p a)) [
  | inl e ↦ rw e (omega arith)
  | inr e ↦ rw e (omega arith)
]

named-cons :
    (h : Option Text) (c : StoredRoom) (cs : List StoredRoom)
    → named h (c ∷ cs) ≡ one_if (same_hash h c.room_hash) + named h cs
named-cons h c cs = elim (Bool-cases (same_hash h c.room_hash)) [
  | inl e ↦ rw e (omega arith)
  | inr e ↦ rw e (omega arith)
]

shown-group :
    (a : StoredRoom) (agents : List StoredRoom) (cs : List StoredRoom)
    → shown (map (group (a ∷ agents)) cs)
      ≡ named a.control_room_hash cs + shown (map (group agents) cs)
shown-group a agents [] = refl
shown-group a agents (c ∷ cs) = omega (
  arith,
  length-filter-cons (is_under c) a agents,
  named-cons a.control_room_hash c cs,
  shown-group a agents cs,
)

shown-nil : (cs : List StoredRoom) → shown (map (group []) cs) ≡ 0
shown-nil [] = refl
shown-nil (c ∷ cs) = omega (arith, shown-nil cs)

partition_lem :
    (cs agents : List StoredRoom)
    → Proper cs
    → shown (map (group agents) cs) + length (filter (is_orphan cs) agents) ≡ length agents
partition_lem cs [] p = rw (shown-nil cs) refl
partition_lem cs (a ∷ agents) p = omega (
  arith,
  shown-group a agents cs,
  length-filter-cons (is_orphan cs) a agents,
  one_place a cs p,
  partition_lem cs agents p,
)

-- When the hashes of the control rooms are not empty and differ from one another, the agents of all
-- groups and the orphans together are as many as the agent rooms.
pub group_open_channels-partition :
    (rooms : List StoredRoom)
    → Proper (filter is_control rooms)
    → shown ((group_open_channels rooms).groups)
        + length ((group_open_channels rooms).orphan_agents)
      ≡ length (filter is_agent rooms)
unfolding group_open_channels
group_open_channels-partition rooms p =
    partition_lem (filter is_control rooms) (filter is_agent rooms) p
