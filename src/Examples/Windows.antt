-- ===== src/Examples/Windows.antt =====
-- Message windows at concrete inputs.
use hisohiso.Prelude.{
  ltb, if◌then◌else◌, ◌+◌, String, none, some, List, [], ◌∷◌, ◌++◌, ◌≡◌, refl, length, arith, inl,
}
use hisohiso.Window.Defs.{Config, State, find_index, sync, rendered}
use hisohiso.Window.Bounds.{Fits, Capped}
use hisohiso.Window.Anchor.{rendered-sync, sync-Fits, sync_outgrows_cap}

abbrev small : Config
small = record { page_size = 2; cap = 3; initial_tail = 2 }

abbrev name : String → String
name s = s

-- Scrolled away from the newest of four messages.
abbrev scrolled : State
scrolled = record { start = 1; end = 3; prev_top = some "d" }

abbrev pinned : State
pinned = record { start = 0; end = 3; prev_top = some "d" }

abbrev four : List String
four = "d" ∷ "c" ∷ "b" ∷ "a" ∷ []

scrolled-Fits : Fits 4 scrolled
scrolled-Fits = record { ordered = omega arith; inside = omega arith }

pinned-Fits : Fits 4 pinned
pinned-Fits = record { ordered = omega arith; inside = omega arith }

no_clash : find_index name "d" ("f" ∷ "e" ∷ []) ≡ none
unfolding find_index
no_clash = refl

rendered-sync_example :
    rendered
      (("f" ∷ "e" ∷ []) ++ (four ++ ("z" ∷ [])))
      (sync small name (("f" ∷ "e" ∷ []) ++ (four ++ ("z" ∷ []))) scrolled)
    ≡ rendered four scrolled
rendered-sync_example =
    rendered-sync small name ("f" ∷ "e" ∷ []) "d" ("c" ∷ "b" ∷ "a" ∷ []) ("z" ∷ []) scrolled
      scrolled-Fits refl no_clash (inl (omega arith))

sync-Fits_example :
    Fits
      (length (("f" ∷ "e" ∷ []) ++ (four ++ ("z" ∷ []))))
      (sync small name (("f" ∷ "e" ∷ []) ++ (four ++ ("z" ∷ []))) pinned)
    × ((sync small name (("f" ∷ "e" ∷ []) ++ (four ++ ("z" ∷ []))) pinned).start
        ≡ (if ltb 0 pinned.start then pinned.start + length {A = String} ("f" ∷ "e" ∷ []) else 0))
sync-Fits_example =
    sync-Fits small name ("f" ∷ "e" ∷ []) "d" ("c" ∷ "b" ∷ "a" ∷ []) ("z" ∷ []) pinned pinned-Fits
      refl no_clash

sync_outgrows_cap_example :
    ¬ Capped small (sync small name (("f" ∷ "e" ∷ []) ++ (four ++ ("z" ∷ []))) pinned)
sync_outgrows_cap_example =
    sync_outgrows_cap small name ("f" ∷ "e" ∷ []) "d" ("c" ∷ "b" ∷ "a" ∷ []) ("z" ∷ []) pinned
      pinned-Fits refl no_clash refl (omega arith)
