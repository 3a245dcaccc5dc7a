-- ===== src/Window/Anchor.antt =====
-- app/src/hooks/useMessageWindow.ts: the effect over a list that grew at its ends.
use hisohiso.Prelude.{
  ℕ, zero, suc, ◌+◌, ◌-◌, ◌≤◌, ◌<◌, String, ◌≡◌, ◌⊎◌, false, Option, none, some, List, [], refl,
  ◌∷◌, ◌++◌, length, length-append, arith, str_eq, eq_iff, if◌then◌else◌, ltb, take, drop, slice,
  ap,
}
use hisohiso.Window.Defs.{Config, State, find_index, top_id, sync, rendered}
use hisohiso.Window.Bounds.{Fits, Capped}

module _ {ℓ} {A : Type ℓ} where
  take-append_le : (n : ℕ) (xs ys : List A) → n ≤ length xs → take n (xs ++ ys) ≡ take n xs
  take-append_le zero xs ys h = refl
  take-append_le (suc n) [] ys h = absurd (omega arith)
  take-append_le (suc n) (x ∷ xs) ys h = ap (λ l. x ∷ l) (take-append_le n xs ys (omega arith))

  drop-append_le : (n : ℕ) (xs ys : List A) → n ≤ length xs → drop n (xs ++ ys) ≡ drop n xs ++ ys
  drop-append_le zero xs ys h = refl
  drop-append_le (suc n) [] ys h = absurd (omega arith)
  drop-append_le (suc n) (x ∷ xs) ys h = drop-append_le n xs ys (omega arith)

  drop_past :
      (fresh xs : List A) (n m : ℕ) → m ≡ length fresh + n → drop m (fresh ++ xs) ≡ drop n xs
  drop_past [] xs n m e = let e' : m ≡ n = omega arith in rw e'
  drop_past (x ∷ fresh) xs n zero e = absurd (omega arith)
  drop_past (x ∷ fresh) xs n (suc m) e = drop_past fresh xs n m (omega arith)

  length-drop_ge : (n : ℕ) (xs : List A) → length xs ≤ length (drop n xs) + n
  length-drop_ge zero xs = omega arith
  length-drop_ge (suc n) [] = omega arith
  length-drop_ge (suc n) (x ∷ xs) = omega (arith, length-drop_ge n xs)

  -- A slice of the middle is that slice of the whole, shifted.
  slice-middle :
      (fresh items older : List A) (from to : ℕ)
      → from ≤ to
      → to ≤ length items
      → slice (from + length fresh) (to + length fresh) (fresh ++ (items ++ older))
        ≡ slice from to items
  slice-middle fresh items older from to p q =
      let width : (to + length fresh) - (from + length fresh) ≡ to - from = omega arith in
      rw width (
        rw (drop_past fresh (items ++ older) from (from + length fresh) (omega arith)) (
          rw (drop-append_le from items older (omega arith)) (
            take-append_le (to - from) (drop from items) older
              (omega (arith, length-drop_ge from items)))))

module _ {ℓ} {A : Type ℓ} (id_of : A → String) where
  -- The old top stands right behind the new messages, when none of them has its id.
  find_index-append :
      (top : String) (fresh : List A) (x : A) (items : List A)
      → find_index id_of top fresh ≡ none
      → id_of x ≡ top
      → find_index id_of top (fresh ++ (x ∷ items)) ≡ some (length fresh)
  unfolding find_index
  find_index-append top [] x items h t = ground (arith, eq_iff (id_of x) top)
  find_index-append top (y ∷ fresh) x items h t =
      ground (arith, find_index-append top fresh x items, eq_iff (id_of y) top)

  find_index-none_head :
      (top : String) (y : A) (fresh : List A)
      → find_index id_of top (y ∷ fresh) ≡ none
      → str_eq (id_of y) top ≡ false
  unfolding find_index
  find_index-none_head top y fresh h = ground (arith, eq_iff (id_of y) top)

-- What the effect makes of a window over a list that grew at its ends.
abbrev grown {ℓ} : {A : Type ℓ} → List A → Option String → State → State
grown fresh top s = record {
  start = if ltb 0 s.start then s.start + length fresh else 0;
  end = s.end + length fresh;
  prev_top = top;
}

module _ {ℓ} {A : Type ℓ} (cfg : Config) (id_of : A → String) where
  sync-grown :
      (fresh : List A) (x : A) (items older : List A) (s : State)
      → Fits (length (x ∷ items)) s
      → s.prev_top ≡ some (id_of x)
      → find_index id_of (id_of x) fresh ≡ none
      → sync cfg id_of (fresh ++ ((x ∷ items) ++ older)) s
        ≡ grown fresh (top_id id_of (fresh ++ ((x ∷ items) ++ older))) s
  unfolding sync
  sync-grown [] x items older s fits top new =
      ground (arith, eq_iff (id_of x) (id_of x), length-append items older)
  sync-grown (y ∷ fresh) x items older s fits top new = ground (
    arith,
    find_index-none_head id_of (id_of x) y fresh new,
    find_index-append id_of (id_of x) (y ∷ fresh) x (items ++ older) new refl,
    length-append fresh (x ∷ (items ++ older)),
    length-append items older,
  )

  -- When messages arrive at the top (none with the id of the old top) and older ones are loaded at
  -- the bottom, a window that is scrolled away from the newest message, or that sees nothing new,
  -- renders the very same messages as before.
  pub rendered-sync :
      (fresh : List A) (x : A) (items older : List A) (s : State)
      → Fits (length (x ∷ items)) s
      → s.prev_top ≡ some (id_of x)
      → find_index id_of (id_of x) fresh ≡ none
      → (0 < s.start) ⊎ (length fresh ≡ 0)
      → rendered
          (fresh ++ ((x ∷ items) ++ older))
          (sync cfg id_of (fresh ++ ((x ∷ items) ++ older)) s)
        ≡ rendered (x ∷ items) s
  rendered-sync fresh x items older s fits top new away =
      let moved : (if ltb 0 s.start then s.start + length fresh else 0) ≡ s.start + length fresh =
        ground arith in
      rw (sync-grown fresh x items older s fits top new)
        (rw moved (slice-middle fresh (x ∷ items) older s.start s.end fits.ordered fits.inside))

  -- Over a list that only grows at its ends, its new messages not having the old top's id, the effect
  -- keeps the slice within the list; its start moves by the number of new messages, except that a
  -- window at the newest message stays there.
  pub sync-Fits :
      (fresh : List A) (x : A) (items older : List A) (s : State)
      → Fits (length (x ∷ items)) s
      → s.prev_top ≡ some (id_of x)
      → find_index id_of (id_of x) fresh ≡ none
      → Fits
          (length (fresh ++ ((x ∷ items) ++ older)))
          (sync cfg id_of (fresh ++ ((x ∷ items) ++ older)) s)
        × ((sync cfg id_of (fresh ++ ((x ∷ items) ++ older)) s).start
            ≡ (if ltb 0 s.start then s.start + length fresh else 0))
  sync-Fits fresh x items older s fits top new =
      rw (sync-grown fresh x items older s fits top new)
        (ground (arith, length-append fresh (x ∷ (items ++ older)), length-append items older))

  -- A window pinned to the newest message takes every new message in and drops none: it grows by
  -- their number, so it passes the cap as soon as more arrive than the cap leaves room for.
  pub sync_outgrows_cap :
      (fresh : List A) (x : A) (items older : List A) (s : State)
      → Fits (length (x ∷ items)) s
      → s.prev_top ≡ some (id_of x)
      → find_index id_of (id_of x) fresh ≡ none
      → s.start ≡ 0
      → cfg.cap < s.end + length fresh
      → ¬ Capped cfg (sync cfg id_of (fresh ++ ((x ∷ items) ++ older)) s)
  sync_outgrows_cap fresh x items older s fits top new pinned more capped =
      let capped' : Capped cfg (grown fresh (top_id id_of (fresh ++ ((x ∷ items) ++ older))) s) =
        rw (sync-grown fresh x items older s fits top new) at capped in
      ground arith
