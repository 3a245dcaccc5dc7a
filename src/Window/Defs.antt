-- ===== src/Window/Defs.antt =====
-- The state, the effect and the callbacks of app/src/hooks/useMessageWindow.ts.
use Prim.Native.Nat.{min}
use hisohiso.Prelude.{
  ℕ, zero, suc, ◌+◌, ◌-◌, String, Bool, not, Option, none, some, List, [], ◌∷◌, length, slice, ltb,
  leb, ◌==◌, str_eq, if◌then◌else◌,
}

-- `Required<Params>`; the observer's margin is the browser's.
pub record Config : Type 0 where
  pub page_size : ℕ
  pub cap : ℕ
  pub initial_tail : ℕ

abbrev pub defaults : Config
defaults = record { page_size = 50; cap = 150; initial_tail = 100 }

-- `windowStart`, `windowEnd` and `prevTopIdRef`.
pub record State : Type 0 where
  pub start : ℕ
  pub end : ℕ
  pub prev_top : Option String

abbrev pub init : State
init = record { start = 0; end = 0; prev_top = none }

abbrev pub span : State → ℕ
span s = s.end - s.start

abbrev pub shift_index : Option ℕ → Option ℕ
shift_index none = none
shift_index (some i) = some (suc i)

module _ {ℓ} {A : Type ℓ} (id_of : A → String) where
  -- `items.findIndex((i) => i.id === prevTopId)`; `none` is -1.
  unfoldable pub find_index : String → List A → Option ℕ
  find_index top [] = none
  find_index top (x ∷ xs) =
      let rest = find_index top xs in if str_eq (id_of x) top then some 0 else shift_index rest

  -- `items[0]?.id ?? null`
  abbrev pub top_id : List A → Option String
  top_id [] = none
  top_id (x ∷ xs) = some (id_of x)

module _ (cfg : Config) where
  -- Back to the newest messages: first population, reset and `jumpToLatest`.
  unfoldable pub repin : ℕ → State → State
  repin len s = record s { start = 0; end = min cfg.initial_tail len }

  -- A prepend of `growth` items at the top: the slice follows unless it is pinned to the top.
  unfoldable pub follow : ℕ → ℕ → State → State
  follow len growth s = record s {
    start = if ltb 0 s.start then s.start + growth else 0;
    end = min (s.end + growth) len;
  }

  -- The branch on `oldTopIndex`.
  unfoldable pub place : ℕ → Option ℕ → State → State
  unfolding repin follow
  place len none s = repin len s
  place len (some zero) s = repin len s
  place len (some (suc i)) s = follow len (suc i) s

  unfoldable pub clamp_end : ℕ → State → State
  clamp_end len s = record s { end = min s.end len }

module _ {ℓ} {A : Type ℓ} (cfg : Config) (id_of : A → String) where
  -- The three branches of the effect on `[items]`, by the old and the new top.
  unfoldable pub sync_top : Option String → Option String → List A → State → State
  unfolding repin place clamp_end
  sync_top none now items s = repin cfg (length items) s
  sync_top (some old) none items s = place cfg (length items) none s
  sync_top (some old) (some now) items s =
      if not (str_eq now old)
      then place cfg (length items) (find_index id_of old items) s
      else clamp_end cfg (length items) s

  -- The effect: place the window, then remember the new top.
  unfoldable pub sync : List A → State → State
  unfolding sync_top
  sync items s = record (sync_top s.prev_top (top_id id_of items) items s) {
    prev_top = top_id id_of items;
  }

module _ (cfg : Config) where
  unfoldable pub expand_to_older : ℕ → State → State
  expand_to_older len s =
      if leb len s.end
      then s
      else let new_end = min len (s.end + cfg.page_size) in
        record s {
          start = if ltb cfg.cap (new_end - s.start) then s.start + cfg.page_size else s.start;
          end = new_end;
        }

  unfoldable pub expand_to_newer : State → State
  expand_to_newer s =
      if s.start == 0
      then s
      else let new_start = s.start - cfg.page_size in
        record s {
          start = new_start;
          end = if ltb cfg.cap (s.end - new_start) then s.end - cfg.page_size else s.end;
        }

  unfoldable pub jump_to_latest : ℕ → State → State
  unfolding repin
  jump_to_latest len s = repin cfg len s

-- What the DOM gets, and the two flags beside it.
abbrev pub rendered {ℓ} : {A : Type ℓ} → List A → State → List A
rendered items s = slice s.start s.end items

abbrev pub has_older : ℕ → State → Bool
has_older len s = ltb s.end len

abbrev pub has_newer : State → Bool
has_newer s = ltb 0 s.start
