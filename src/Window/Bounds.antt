-- ===== src/Window/Bounds.antt =====
-- app/src/hooks/useMessageWindow.ts: the bounds of the window.
use hisohiso.Prelude.{ℕ, zero, suc, ◌+◌, ◌≤◌, ◌≡◌, Option, none, some, arith}
use hisohiso.Window.Defs.{
  Config, State, place, clamp_end, expand_to_older, expand_to_newer, jump_to_latest,
}

-- The slice lies within the list.
pub record Fits (len : ℕ) (s : State) : Type 0 where
  pub ordered : s.start ≤ s.end
  pub inside : s.end ≤ len

-- No more than `cap` items are rendered.
abbrev pub Capped : Config → State → Type 0
Capped cfg s = s.end ≤ s.start + cfg.cap

module _ (cfg : Config) (len : ℕ) (s : State) where
  -- With a page no larger than the cap, paging towards older messages keeps the slice within the
  -- list and under the cap, and never gives up an end that was reached.
  expand_to_older-Fits :
      cfg.page_size ≤ cfg.cap
      → Fits len s
      → Capped cfg s
      → Fits len (expand_to_older cfg len s)
        × Capped cfg (expand_to_older cfg len s)
        × (s.end ≤ (expand_to_older cfg len s).end)
  unfolding expand_to_older
  expand_to_older-Fits sane fits c = ground arith

  -- The same towards newer messages: the start only moves up the list.
  expand_to_newer-Fits :
      cfg.page_size ≤ cfg.cap
      → Fits len s
      → Capped cfg s
      → Fits len (expand_to_newer cfg s)
        × Capped cfg (expand_to_newer cfg s)
        × ((expand_to_newer cfg s).start ≤ s.start)
  unfolding expand_to_newer
  expand_to_newer-Fits sane fits c = ground arith

  -- With a page no larger than the cap, paging either way keeps the slice within the list and under
  -- the cap; towards older messages the end never moves back, towards newer ones the start only moves
  -- up the list.
  pub expand_to-Fits :
      cfg.page_size ≤ cfg.cap
      → Fits len s
      → Capped cfg s
      → (Fits len (expand_to_older cfg len s)
          × Capped cfg (expand_to_older cfg len s)
          × (s.end ≤ (expand_to_older cfg len s).end))
        × (Fits len (expand_to_newer cfg s)
            × Capped cfg (expand_to_newer cfg s)
            × ((expand_to_newer cfg s).start ≤ s.start))
  expand_to-Fits sane fits c = (expand_to_older-Fits sane fits c, expand_to_newer-Fits sane fits c)

  pub jump_to_latest-Fits : Fits len (jump_to_latest cfg len s)
  unfolding jump_to_latest
  jump_to_latest-Fits = ground arith

  pub place-Fits :
      (now : ℕ) (found : Option ℕ)
      → Fits len s
      → ((i : ℕ) → found ≡ some (suc i) → len + suc i ≤ now)
      → Fits now (place cfg now found s)
  unfolding place
  place-Fits now none fits grown = ground arith
  place-Fits now (some zero) fits grown = ground arith
  place-Fits now (some (suc i)) fits grown = ground (arith, grown i)

  pub clamp_end-Fits : (now : ℕ) → Fits len s → len ≤ now → Fits now (clamp_end cfg now s)
  unfolding clamp_end
  clamp_end-Fits now fits grown = ground arith
