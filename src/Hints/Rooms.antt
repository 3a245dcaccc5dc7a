-- ===== src/Hints/Rooms.antt =====
-- app/src/lib/auto-approve.ts and app/src/lib/pending-knocks.ts: reads after writes.
use hisohiso.Prelude.{
  ℕ, zero, suc, Bool, true, false, Option, none, some, List, [], ◌∷◌, ◌++◌, ltb, if◌then◌else◌, ◌≡◌,
  refl, Bool-cases, inl, inr, sym, ap, ◌∙◌, ==_iff, arith, lt→ltb,
}
use hisohiso.Text.{Text, units, text_eq, show}
use hisohiso.Text.Laws.{text_eq_iff, text_eq_refl, IsWord, show-IsWord}
use hisohiso.Hints.Local.{
  Local, get_item, remove_item, set_item, auto_approve_key, is_auto_approve_enabled,
  set_auto_approve_enabled, pending_knocks_key, count_of, get_pending_knock_count,
  set_pending_knock_count,
}

pub text_eq-append : (p s t : Text) → text_eq (p ++ s) (p ++ t) ≡ text_eq s t
unfolding text_eq
text_eq-append [] s t = refl
text_eq-append (c ∷ p) s t = rw ((==_iff c c).1 refl) (text_eq-append p s t)

pub get_item-remove_item :
    (j k : Text) (es : List (Text × Text))
    → get_item j (remove_item k es) ≡ (if text_eq k j then none else get_item j es)
unfolding get_item remove_item
get_item-remove_item j k [] = elim (Bool-cases (text_eq k j)) [
  | inl e ↦ rw e refl
  | inr e ↦ rw e refl
]
get_item-remove_item j k ((i, v) ∷ es) = elim (Bool-cases (text_eq i k)) [
  | inl e ↦ rw e (
      get_item-remove_item j k es
      ∙ shadowed (text_eq k j) (text_eq i j) (ap (λ t. text_eq t j) ((text_eq_iff i k).0 e)))
  | inr e ↦ rw e (elim (Bool-cases (text_eq i j)) [
    | inl f ↦ rw f (elim (Bool-cases (text_eq k j)) [
      | inl g ↦
          let same : i ≡ k = (text_eq_iff i j).0 f ∙ sym ((text_eq_iff k j).0 g) in
          absurd (cc (e, (text_eq_iff i k).1 same))
      | inr g ↦ rw g refl
    ])
    | inr f ↦ rw f (get_item-remove_item j k es)
  ])
]
  where
    shadowed :
        (a b : Bool)
        → b ≡ a
        → (if a then none else get_item j es)
          ≡ (if a then none else if b then some v else get_item j es)
    shadowed true b e = refl
    shadowed false b e = rw e refl

pub get_item-set_item :
    (j k v : Text) (es : List (Text × Text))
    → get_item j (set_item k v es) ≡ (if text_eq k j then some v else get_item j es)
unfolding get_item
get_item-set_item j k v es = elim (Bool-cases (text_eq k j)) [
  | inl e ↦ rw e refl
  | inr e ↦ rw e (get_item-remove_item j k es ∙ rw e refl)
]

at_hand : List (Text × Text) → Local
at_hand es = record { available = true; entries = es }

auto_approve-go :
    (h j : Text) (enabled : Bool) (es : List (Text × Text))
    → is_auto_approve_enabled j (set_auto_approve_enabled h enabled (at_hand es))
      ≡ (if text_eq h j then enabled else is_auto_approve_enabled j (at_hand es))
unfolding is_auto_approve_enabled set_auto_approve_enabled at_hand
auto_approve-go h j true es =
    rw (get_item-set_item (auto_approve_key j) (auto_approve_key h) (units "1") es) (
      rw (text_eq-append (units "hisohiso.autoapprove.") h j) (elim (Bool-cases (text_eq h j)) [
        | inl e ↦ rw e (text_eq_refl (units "1"))
        | inr e ↦ rw e refl
      ]))
auto_approve-go h j false es =
    rw (get_item-remove_item (auto_approve_key j) (auto_approve_key h) es) (
      rw (text_eq-append (units "hisohiso.autoapprove.") h j)
        (elim (Bool-cases (text_eq h j)) [ inl e ↦ rw e refl | inr e ↦ rw e refl ]))

available-at_hand : (s : Local) → s.available ≡ true → s ≡ at_hand s.entries
unfolding at_hand
available-at_hand s here = λ i. record { available = here i; entries = s.entries }

-- With the storage available, setting a room's opt-in changes what is read for that room and for no
-- other.
pub is_auto_approve_enabled-set :
    (h j : Text) (enabled : Bool) (s : Local)
    → s.available ≡ true
    → is_auto_approve_enabled j (set_auto_approve_enabled h enabled s)
      ≡ (if text_eq h j then enabled else is_auto_approve_enabled j s)
is_auto_approve_enabled-set h j enabled s here =
    let e = available-at_hand s here in
    ap (λ t. is_auto_approve_enabled j (set_auto_approve_enabled h enabled t)) e
    ∙ auto_approve-go h j enabled s.entries
    ∙ sym (ap (λ t. if text_eq h j then enabled else is_auto_approve_enabled j t) e)

module _ (floor_number : Text → Option ℕ) (reads : (n : ℕ) → floor_number (show n) ≡ some n) where
  count_of-show : (n : ℕ) → count_of floor_number (some (show n)) ≡ n
  count_of-show n = go (show n) (show-IsWord n) (reads n)
    where
      go : (t : Text) → IsWord t → floor_number t ≡ some n → count_of floor_number (some t) ≡ n
      go [] w e = absurd w
      go (c ∷ t) w e = rw e refl

  count-go :
      (h j : Text) (n : ℕ) (es : List (Text × Text))
      → get_pending_knock_count floor_number j (set_pending_knock_count h n (at_hand es))
        ≡ (if text_eq h j then n else get_pending_knock_count floor_number j (at_hand es))
  unfolding get_pending_knock_count set_pending_knock_count at_hand
  count-go h j zero es =
      rw (get_item-remove_item (pending_knocks_key j) (pending_knocks_key h) es) (
        rw (text_eq-append (units "hisohiso.pending_knocks.") h j)
          (elim (Bool-cases (text_eq h j)) [ inl e ↦ rw e refl | inr e ↦ rw e refl ]))
  count-go h j (suc n) es =
      let some_count : ltb 0 (suc n) ≡ true = lt→ltb 0 (suc n) (omega arith) in
      rw some_count (
        rw (get_item-set_item (pending_knocks_key j) (pending_knocks_key h) (show (suc n)) es) (
          rw (text_eq-append (units "hisohiso.pending_knocks.") h j)
            (elim (Bool-cases (text_eq h j)) [
              | inl e ↦ rw e (count_of-show (suc n))
              | inr e ↦ rw e refl
            ])))

  -- With the storage available and numerals read back, setting a room's count of waiting knocks is read
  -- back for that room and changes it for no other.
  pub get_pending_knock_count-set :
      (h j : Text) (n : ℕ) (s : Local)
      → s.available ≡ true
      → get_pending_knock_count floor_number j (set_pending_knock_count h n s)
        ≡ (if text_eq h j then n else get_pending_knock_count floor_number j s)
  get_pending_knock_count-set h j n s here =
      let e = available-at_hand s here in
      ap (λ t. get_pending_knock_count floor_number j (set_pending_knock_count h n t)) e
      ∙ count-go h j n s.entries
      ∙ sym (ap (λ t. if text_eq h j then n else get_pending_knock_count floor_number j t) e)
