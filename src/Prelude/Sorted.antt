-- ===== src/Prelude/Sorted.antt =====
-- `sort` with a comparison by a number, from the largest down: the sort of the language is stable, so
-- this insertion sort gives its result. Counting says which members a list has.
use Prim.Native.Nat.{ℕ, zero, suc, ◌≤◌}
use mathlib.Core.Path.{◌≡◌, refl, ap, ◌∙◌}
use mathlib.Core.Logic.{inl, inr}
use mathlib.Core.Bool.{Bool, true}
use mathlib.Core.List.{List, [], ◌∷◌, ◌++◌}
use native.Mathlib.Omega.{arith}
use hisohiso.Prelude.Tests.{ltb, if◌then◌else◌, Bool-cases}
use hisohiso.Prelude.Lists.{take, drop, All, find, length}

module _ {A : Type 0} where
  unfoldable pub insert_desc : (A → ℕ) → A → List A → List A
  insert_desc key e [] = e ∷ []
  insert_desc key e (f ∷ fs) =
      let rest = insert_desc key e fs in if ltb (key e) (key f) then f ∷ rest else e ∷ f ∷ fs

  unfoldable pub sort_desc : (A → ℕ) → List A → List A
  unfolding insert_desc
  sort_desc key [] = []
  sort_desc key (e ∷ es) = insert_desc key e (sort_desc key es)

  -- How many members a test accepts: equal counts at every test say that two lists hold the same
  -- members, each as often.
  abbrev pub count : (A → Bool) → List A → ℕ
  count p [] = 0
  count p (e ∷ es) = if p e then suc (count p es) else count p es

  length-count : (es : List A) → count (λ e. true) es ≡ length es
  length-count [] = refl
  length-count (e ∷ es) = ap suc (length-count es)

  pub take-drop : (n : ℕ) (es : List A) → take n es ++ drop n es ≡ es
  take-drop zero es = refl
  take-drop (suc n) [] = refl
  take-drop (suc n) (e ∷ es) = ap (λ l. e ∷ l) (take-drop n es)

  drop-All : (P : A → Type 0) (n : ℕ) (es : List A) → All P es → All P (drop n es)
  drop-All P zero es a = a
  drop-All P (suc n) [] a = tt
  drop-All P (suc n) (e ∷ es) a = drop-All P n es a.1

  module _ (key : A → ℕ) where
    abbrev pub NotAbove : A → A → Type 0
    NotAbove e f = key f ≤ key e

    abbrev pub IsDescending : List A → Type 0
    IsDescending [] = Unit
    IsDescending (e ∷ es) = All (NotAbove e) es × IsDescending es

    insert_desc-All :
        (P : A → Type 0) (e : A) (es : List A) → P e → All P es → All P (insert_desc key e es)
    unfolding insert_desc
    insert_desc-All P e [] p a = (p, tt)
    insert_desc-All P e (f ∷ fs) p a = elim (Bool-cases (ltb (key e) (key f))) [
      | inl less ↦ rw less (a.0, insert_desc-All P e fs p a.1)
      | inr more ↦ rw more (p, a)
    ]

    NotAbove-trans :
        (e f : A) (es : List A) → key f ≤ key e → All (NotAbove f) es → All (NotAbove e) es
    NotAbove-trans e f [] h a = tt
    NotAbove-trans e f (x ∷ es) h a = (omega (arith, h, a.0), NotAbove-trans e f es h a.1)

    insert_desc-IsDescending :
        (e : A) (es : List A) → IsDescending es → IsDescending (insert_desc key e es)
    unfolding insert_desc
    insert_desc-IsDescending e [] s = (tt, tt)
    insert_desc-IsDescending e (f ∷ fs) s = elim (Bool-cases (ltb (key e) (key f))) [
      | inl less ↦
          rw less (
            insert_desc-All (NotAbove f) e fs (ground arith) s.0,
            insert_desc-IsDescending e fs s.1,
          )
      | inr more ↦
          let le : key f ≤ key e = ground arith in rw more ((le, NotAbove-trans e f fs le s.0), s)
    ]

    pub sort_desc-IsDescending : (es : List A) → IsDescending (sort_desc key es)
    unfolding sort_desc
    sort_desc-IsDescending [] = tt
    sort_desc-IsDescending (e ∷ es) =
        insert_desc-IsDescending e (sort_desc key es) (sort_desc-IsDescending es)

    count-insert_desc :
        (p : A → Bool) (e : A) (es : List A) → count p (insert_desc key e es) ≡ count p (e ∷ es)
    unfolding insert_desc
    count-insert_desc p e [] = refl
    count-insert_desc p e (f ∷ fs) = ground (arith, count-insert_desc p e fs)

    pub count-sort_desc : (p : A → Bool) (es : List A) → count p (sort_desc key es) ≡ count p es
    unfolding sort_desc
    count-sort_desc p [] = refl
    count-sort_desc p (e ∷ es) =
        ground (arith, count-insert_desc p e (sort_desc key es), count-sort_desc p es)

    pub length-sort_desc : (es : List A) → length (sort_desc key es) ≡ length es
    length-sort_desc es =
        omega
          (arith, length-count (sort_desc key es), length-count es, count-sort_desc (λ e. true) es)

    -- What stands before a cut of a sorted list is not below what stands after it.
    pub take-NotAbove :
        (n : ℕ) (es : List A)
        → IsDescending es
        → All (λ (e : A). All (NotAbove e) (drop n es)) (take n es)
    take-NotAbove zero es s = tt
    take-NotAbove (suc n) [] s = tt
    take-NotAbove (suc n) (e ∷ es) s = (drop-All (NotAbove e) n es s.0, take-NotAbove n es s.1)

    find-insert_desc :
        (p : A → Bool) (e : A) (es : List A)
        → count p (e ∷ es) ≤ 1
        → find p (insert_desc key e es) ≡ find p (e ∷ es)
    unfolding insert_desc
    find-insert_desc p e [] h = refl
    find-insert_desc p e (f ∷ fs) h = elim (Bool-cases (ltb (key e) (key f))) [
      | inr more ↦ rw more refl
      | inl less ↦ rw less (elim (Bool-cases (p f)) [
        | inl pf ↦ elim (Bool-cases (p e)) [
          | inl pe ↦ absurd (ground (arith, h, pf, pe))
          | inr ne ↦ rw (pf, ne) refl
        ]
        | inr nf ↦ rw nf (find-insert_desc p e fs (ground (arith, h, nf)))
      ])
    ]

    -- Sorting leaves the one member that a test accepts where `find` finds it.
    pub find-sort_desc :
        (p : A → Bool) (es : List A) → count p es ≤ 1 → find p (sort_desc key es) ≡ find p es
    unfolding sort_desc
    find-sort_desc p [] h = refl
    find-sort_desc p (e ∷ es) h =
        find-insert_desc p e (sort_desc key es) (ground (arith, h, count-sort_desc p es))
        ∙ elim (Bool-cases (p e)) [
          | inl pe ↦ rw pe refl
          | inr ne ↦ rw ne (find-sort_desc p es (ground (arith, h, ne)))
        ]
