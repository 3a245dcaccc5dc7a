-- ===== src/Scheduler/Invariant.antt =====
-- What holds of a scheduler between two steps, over the parts of its state, and how the timer
-- operations keep it.
use mathlib.Core.Path.{fun_ext}
use hisohiso.Prelude.{
  ℕ, ◌≤◌, ◌<◌, ◌≡◌, refl, ap, ◌∙◌, Bool, false, ◌||◌, Option, none, some, List, [], ◌∷◌, ◌++◌, map,
  ◌==◌, any, length, All, arith, Bool-cases, inl, inr,
}
use hisohiso.Text.{Text, text_eq}
use hisohiso.Text.Laws.{text_eq_iff, text_eq_refl, All-append}
use hisohiso.Scheduler.Defs.{
  Schedule, Timer, Flight, State, update, timer_of, without, cancel, clear, disarm,
}

abbrev pub has_id : Text → List Text → Bool
has_id id = any (λ k. text_eq k id)

abbrev pub Distinct : List Text → Type 0
Distinct [] = Unit
Distinct (k ∷ ks) = (has_id k ks ≡ false) × Distinct ks

abbrev pub ids_of : (ℕ → Schedule) → ℕ → Text
ids_of heap a = (heap a).id

-- The timer map holds the handle of every live timer, under the id of its schedule.
abbrev pub Wired : (ℕ → Text) → List (Text × ℕ) → List Timer → Type 0
Wired ids timers = All (λ t. timer_of (ids t.target) timers ≡ some t.handle)

abbrev pub timer_ids : (ℕ → Text) → List Timer → List Text
timer_ids ids = map (λ t. ids t.target)

abbrev pub flight_ids : (ℕ → Text) → List Flight → List Text
flight_ids ids = map (λ f. ids f.target)

-- Live timers: allocated, registered, and at most one for each id.
pub record TimersOk (ids : ℕ → Text) (fresh : ℕ) (timers : List (Text × ℕ)) (pending : List Timer)
    : Type 0 where
  pub allocated : All (λ t. t.target < fresh) pending
  pub wired : Wired ids timers pending
  pub one_each : Distinct (timer_ids ids pending)

-- Fires in flight: the running set holds their ids, each once, and no more than the cap.
pub record RunsOk (max : ℕ) (ids : ℕ → Text) (fresh : ℕ) (running : List Text)
    (flights : List Flight) : Type 0 where
  pub allocated : All (λ f. f.target < fresh) flights
  pub tracked : running ≡ flight_ids ids flights
  pub no_overlap : Distinct running
  pub capped : length running ≤ max

pub record Inv (max : ℕ) (s : State) : Type 0 where
  pub listed : All (λ a. a < s.fresh) s.schedules
  pub timers_ok : TimersOk (ids_of s.heap) s.fresh s.timers s.pending
  pub runs_ok : RunsOk max (ids_of s.heap) s.fresh s.running s.flights

update-id :
    (heap : ℕ → Schedule) (a : ℕ) (x : Schedule) (b : ℕ)
    → x.id ≡ (heap a).id
    → (update heap a x b).id ≡ (heap b).id
update-id heap a x b e = ground arith

-- An update that keeps the id of its object keeps every id.
pub ids-update :
    (heap : ℕ → Schedule) (a : ℕ) (x : Schedule)
    → x.id ≡ (heap a).id
    → ids_of (update heap a x) ≡ ids_of heap
ids-update heap a x e = fun_ext (λ b. update-id heap a x b e)

timer_of-without :
    (id k : Text) (timers : List (Text × ℕ))
    → text_eq id k ≡ false
    → timer_of k (without id timers) ≡ timer_of k timers
unfolding timer_of without
timer_of-without id k [] h = refl
timer_of-without id k ((j, n) ∷ rest) h =
    ground
      (arith, timer_of-without id k rest h, text_eq_iff j id, text_eq_iff j k, text_eq_iff id k)

module _ (ids : ℕ → Text) (id : Text) where
  has_id-cancel :
      (h : ℕ) (k : Text) (pending : List Timer)
      → has_id k (timer_ids ids pending) ≡ false
      → has_id k (timer_ids ids (cancel h pending)) ≡ false
  has_id-cancel h k [] e = refl
  has_id-cancel h k (t ∷ ts) e = ground (arith, has_id-cancel h k ts)

  -- Cancelling the registered timer of an id leaves no live timer with that id.
  no_timer-cancel :
      (h : ℕ) (timers : List (Text × ℕ)) (pending : List Timer)
      → timer_of id timers ≡ some h
      → Wired ids timers pending
      → has_id id (timer_ids ids (cancel h pending)) ≡ false
  no_timer-cancel h timers [] e w = refl
  no_timer-cancel h timers (t ∷ ts) e w =
      ground (arith, no_timer-cancel h timers ts e w.1, text_eq_iff (ids t.target) id, w.0)

  no_timer-none :
      (timers : List (Text × ℕ)) (pending : List Timer)
      → timer_of id timers ≡ none
      → Wired ids timers pending
      → has_id id (timer_ids ids pending) ≡ false
  no_timer-none timers [] e w = refl
  no_timer-none timers (t ∷ ts) e w =
      ground (arith, no_timer-none timers ts e w.1, text_eq_iff (ids t.target) id, w.0)

  cancel-All :
      (P : Timer → Type 0) (h : ℕ) (pending : List Timer) → All P pending → All P (cancel h pending)
  cancel-All P h [] a = tt
  cancel-All P h (t ∷ ts) a = elim (Bool-cases (t.handle == h)) [
    | inl gone ↦ rw gone (cancel-All P h ts a.1)
    | inr kept ↦ rw kept (a.0, cancel-All P h ts a.1)
  ]

  cancel-Distinct :
      (h : ℕ) (pending : List Timer)
      → Distinct (timer_ids ids pending)
      → Distinct (timer_ids ids (cancel h pending))
  cancel-Distinct h [] d = tt
  cancel-Distinct h (t ∷ ts) d = elim (Bool-cases (t.handle == h)) [
    | inl gone ↦ rw gone (cancel-Distinct h ts d.1)
    | inr kept ↦ rw kept (has_id-cancel h (ids t.target) ts d.0, cancel-Distinct h ts d.1)
  ]

  cancel-Wired :
      (h : ℕ) (timers : List (Text × ℕ)) (pending : List Timer)
      → timer_of id timers ≡ some h
      → Wired ids timers pending
      → Wired ids (without id timers) (cancel h pending)
  cancel-Wired h timers [] e w = tt
  cancel-Wired h timers (t ∷ ts) e w = elim (Bool-cases (t.handle == h)) [
    | inl gone ↦ rw gone (cancel-Wired h timers ts e w.1)
    | inr kept ↦
        let other : text_eq id (ids t.target) ≡ false =
          ground (arith, text_eq_iff id (ids t.target), w.0, kept) in
        rw kept
          (timer_of-without id (ids t.target) timers other ∙ w.0, cancel-Wired h timers ts e w.1)
  ]

-- The timer that `disarm` clears, whatever the map holds for the id.
clear-parts :
    (h : Option ℕ) (id : Text) (s : State)
    → timer_of id s.timers ≡ h
    → TimersOk (ids_of s.heap) s.fresh s.timers s.pending
    → TimersOk (ids_of s.heap) s.fresh (clear h id s).timers (clear h id s).pending
      × (has_id id (timer_ids (ids_of s.heap) (clear h id s).pending) ≡ false)
unfolding clear
clear-parts none id s e ok = (ok, no_timer-none (ids_of s.heap) id s.timers s.pending e ok.wired)
clear-parts (some h) id s e ok = (
  record {
    allocated = cancel-All (ids_of s.heap) id _ h s.pending ok.allocated;
    wired = cancel-Wired (ids_of s.heap) id h s.timers s.pending e ok.wired;
    one_each = cancel-Distinct (ids_of s.heap) id h s.pending ok.one_each;
  },
  no_timer-cancel (ids_of s.heap) id h s.timers s.pending e ok.wired,
)

-- `disarm` keeps the timers in order and leaves no live timer for the id.
pub disarm-parts :
    (id : Text) (s : State)
    → TimersOk (ids_of s.heap) s.fresh s.timers s.pending
    → TimersOk (ids_of s.heap) s.fresh (disarm id s).timers (disarm id s).pending
      × (has_id id (timer_ids (ids_of s.heap) (disarm id s).pending) ≡ false)
unfolding disarm
disarm-parts id s ok = clear-parts (timer_of id s.timers) id s refl ok

module _ (ids : ℕ → Text) where
  has_id-append :
      (k : Text) (ks ls : List Text) → has_id k (ks ++ ls) ≡ (has_id k ks || has_id k ls)
  has_id-append k [] ls = refl
  has_id-append k (j ∷ ks) ls = ground (arith, has_id-append k ks ls)

  pub Distinct-snoc :
      (k : Text) (ks : List Text) → has_id k ks ≡ false → Distinct ks → Distinct (ks ++ (k ∷ []))
  Distinct-snoc k [] h d = (refl, tt)
  Distinct-snoc k (j ∷ ks) h d = (
    ground (arith, has_id-append j ks (k ∷ []), text_eq_iff j k, text_eq_iff k j),
    Distinct-snoc k ks (ground arith) d.1,
  )

  timer_ids-append :
      (ts us : List Timer) → timer_ids ids (ts ++ us) ≡ timer_ids ids ts ++ timer_ids ids us
  timer_ids-append [] us = refl
  timer_ids-append (t ∷ ts) us = ap (λ l. ids t.target ∷ l) (timer_ids-append ts us)

  -- A new timer for an id that has none.
  Wired-push :
      (id : Text) (n : ℕ) (timers : List (Text × ℕ)) (pending : List Timer)
      → has_id id (timer_ids ids pending) ≡ false
      → Wired ids timers pending
      → Wired ids ((id, n) ∷ timers) pending
  unfolding timer_of
  Wired-push id n timers [] h w = tt
  Wired-push id n timers (t ∷ ts) h w = (
    ground (arith, w.0, text_eq_iff id (ids t.target), text_eq_iff (ids t.target) id),
    Wired-push id n timers ts (ground arith) w.1,
  )

  pub push-parts :
      (fresh n a due : ℕ) (timers : List (Text × ℕ)) (pending : List Timer)
      → a < fresh
      → has_id (ids a) (timer_ids ids pending) ≡ false
      → TimersOk ids fresh timers pending
      → TimersOk ids fresh
          ((ids a, n) ∷ timers)
          (pending ++ (record { handle = n; target = a; due = due } ∷ []))
  unfolding timer_of
  push-parts fresh n a due timers pending lt none_yet ok = record {
    allocated = All-append _ pending _ ok.allocated (lt, tt);
    wired =
        All-append _ pending _ (Wired-push (ids a) n timers pending none_yet ok.wired)
          (ground (arith, text_eq_refl (ids a)), tt);
    one_each =
        rw (timer_ids-append pending (record { handle = n; target = a; due = due } ∷ []))
          (Distinct-snoc (ids a) (timer_ids ids pending) none_yet ok.one_each);
  }

  pub cancel-parts :
      (fresh h : ℕ) (timers : List (Text × ℕ)) (pending : List Timer)
      → TimersOk ids fresh timers pending
      → TimersOk ids fresh timers (cancel h pending)
  cancel-parts fresh h timers pending ok = record {
    allocated = cancel-All ids [] _ h pending ok.allocated;
    wired = cancel-All ids [] _ h pending ok.wired;
    one_each = cancel-Distinct ids [] h pending ok.one_each;
  }
