-- ===== src/Scheduler/Parts.antt =====
-- How the methods of the scheduler keep the invariant, one lemma for each part of the state.
use hisohiso.Prelude.{
  ℕ, suc, ◌<◌, ◌≡◌, refl, sym, ap, ◌∙◌, false, Option, none, some, List, [], ◌∷◌, ◌++◌, All, arith,
  Bool-cases, inl, inr,
}
use hisohiso.Text.{Text}
use hisohiso.Text.Laws.{All-append}
use hisohiso.Cron.Defs.{Js, compute_next_run_at}
use hisohiso.Scheduler.Defs.{
  Schedule, Timer, Flight, State, update, timer_of, clear, disarm, set_timer, set_next, arm,
  arm_enabled, adopt, arm_all, persist,
}
use hisohiso.Scheduler.Invariant.{
  Inv, TimersOk, RunsOk, ids_of, ids-update, has_id, timer_ids, flight_ids, disarm-parts,
  push-parts, Wired,
}

All-suc :
    {A : Type 0} (f : A → ℕ) (n : ℕ) (xs : List A)
    → All (λ x. f x < n) xs
    → All (λ x. f x < suc n) xs
All-suc f n [] a = tt
All-suc f n (x ∷ xs) a = (omega arith, All-suc f n xs a.1)

pub disarm_rest :
    (id : Text) (s : State)
    → disarm id s ≡ record s { pending = (disarm id s).pending; timers = (disarm id s).timers }
unfolding disarm
disarm_rest id s = go (timer_of id s.timers)
  where
    go :
        (h : Option ℕ)
        → clear h id s
          ≡ record s { pending = (clear h id s).pending; timers = (clear h id s).timers }
    go none = refl
    go (some h) = refl

timers-update :
    (heap : ℕ → Schedule) (a : ℕ) (x : Schedule)
    → x.id ≡ (heap a).id
    → (pending : List Timer)
    → has_id (update heap a x a).id (timer_ids (ids_of (update heap a x)) pending)
      ≡ has_id (heap a).id (timer_ids (ids_of heap) pending)
timers-update heap a x e pending =
    ap (λ (ids : ℕ → Text). has_id (ids a) (timer_ids ids pending)) (ids-update heap a x e)

-- Allocation: a new object leaves the ids of the old ones alone.
agree :
    (heap : ℕ → Schedule) (fresh : ℕ) (x : Schedule) (b : ℕ)
    → b < fresh
    → (update heap fresh x b).id ≡ (heap b).id
agree heap fresh x b lt = ground arith

module _ (heap : ℕ → Schedule) (fresh : ℕ) (x : Schedule) where
  timer_ids-alloc :
      (ts : List Timer)
      → All (λ t. t.target < fresh) ts
      → timer_ids (ids_of (update heap fresh x)) ts ≡ timer_ids (ids_of heap) ts
  timer_ids-alloc [] a = refl
  timer_ids-alloc (t ∷ ts) a = cc (agree heap fresh x t.target a.0, timer_ids-alloc ts a.1)

  flight_ids-alloc :
      (fs : List Flight)
      → All (λ f. f.target < fresh) fs
      → flight_ids (ids_of (update heap fresh x)) fs ≡ flight_ids (ids_of heap) fs
  flight_ids-alloc [] a = refl
  flight_ids-alloc (f ∷ fs) a = cc (agree heap fresh x f.target a.0, flight_ids-alloc fs a.1)

  Wired-alloc :
      (timers : List (Text × ℕ)) (ts : List Timer)
      → All (λ t. t.target < fresh) ts
      → Wired (ids_of heap) timers ts
      → Wired (ids_of (update heap fresh x)) timers ts
  Wired-alloc timers [] a w = tt
  Wired-alloc timers (t ∷ ts) a w =
      (rw (agree heap fresh x t.target a.0) w.0, Wired-alloc timers ts a.1 w.1)

  pub TimersOk-alloc :
      (timers : List (Text × ℕ)) (pending : List Timer)
      → TimersOk (ids_of heap) fresh timers pending
      → TimersOk (ids_of (update heap fresh x)) (suc fresh) timers pending
  TimersOk-alloc timers pending ok = record {
    allocated = All-suc (λ t. t.target) fresh pending ok.allocated;
    wired = Wired-alloc timers pending ok.allocated ok.wired;
    one_each = rw (timer_ids-alloc pending ok.allocated) ok.one_each;
  }

  pub RunsOk-alloc :
      (max : ℕ) (running : List Text) (flights : List Flight)
      → RunsOk max (ids_of heap) fresh running flights
      → RunsOk max (ids_of (update heap fresh x)) (suc fresh) running flights
  RunsOk-alloc max running flights ok = record {
    allocated = All-suc (λ f. f.target) fresh flights ok.allocated;
    tracked = ok.tracked ∙ sym (flight_ids-alloc flights ok.allocated);
    no_overlap = ok.no_overlap;
    capped = ok.capped;
  }

  pub listed-alloc :
      (schedules : List ℕ)
      → All (λ a. a < fresh) schedules
      → All (λ a. a < suc fresh) (schedules ++ (fresh ∷ []))
  listed-alloc schedules a =
      All-append _ schedules (fresh ∷ []) (All-suc (λ b. b) fresh schedules a) (omega arith, tt)

module _ (max : ℕ) where
  pub disarm-Inv : (id : Text) (s : State) → Inv max s → Inv max (disarm id s)
  disarm-Inv id s inv = rw (disarm_rest id s) (record {
    listed = inv.listed;
    timers_ok = (disarm-parts id s inv.timers_ok).0;
    runs_ok = inv.runs_ok;
  })

  -- A new version of an object under its old id.
  pub update-Inv :
      (s : State) (a : ℕ) (x : Schedule)
      → x.id ≡ (s.heap a).id
      → Inv max s
      → Inv max (record s { heap = update s.heap a x })
  update-Inv s a x e inv = record {
    listed = inv.listed;
    timers_ok = rw (ids-update s.heap a x e) inv.timers_ok;
    runs_ok = rw (ids-update s.heap a x e) inv.runs_ok;
  }

  pub persist-Inv : (s : State) → Inv max s → Inv max (persist s)
  persist-Inv s inv = record {
    listed = inv.listed;
    timers_ok = inv.timers_ok;
    runs_ok = inv.runs_ok;
  }

  module _ (js : Js) (now : ℕ) where
    set_timer-Inv :
        (next : Option ℕ) (a : ℕ) (s : State)
        → a < s.fresh
        → has_id (s.heap a).id (timer_ids (ids_of s.heap) s.pending) ≡ false
        → Inv max s
        → Inv max (set_timer js now next a s)
    unfolding set_timer
    set_timer-Inv none a s lt none_yet inv = inv
    set_timer-Inv (some next) a s lt none_yet inv = record {
      listed = inv.listed;
      timers_ok =
          push-parts (ids_of s.heap) s.fresh s.next_handle a _ s.timers s.pending lt none_yet
            inv.timers_ok;
      runs_ok = inv.runs_ok;
    }

    pub arm-Inv : (a : ℕ) (s : State) → a < s.fresh → Inv max s → Inv max (arm js now a s)
    unfolding arm
    arm-Inv a s lt inv =
        let id = (s.heap a).id in
        let next = compute_next_run_at js (s.heap a).cron now in
        let s1 : State = record s {
          pending = (disarm id s).pending;
          timers = (disarm id s).timers;
        } in
        let inv1 : Inv max s1 = rw (disarm_rest id s) at (disarm-Inv id s inv) in
        rw (disarm_rest id s) (
          set_timer-Inv next a (set_next js now next a s1) lt
            (timers-update s.heap a (record (s.heap a) { next_run_at = next }) refl s1.pending
              ∙ (disarm-parts id s inv.timers_ok).1)
            (update-Inv s1 a (record (s.heap a) { next_run_at = next }) refl inv1))

    pub arm_enabled-Inv :
        (a : ℕ) (s : State) → a < s.fresh → Inv max s → Inv max (arm_enabled js now a s)
    unfolding arm_enabled
    arm_enabled-Inv a s lt inv = elim (Bool-cases (s.heap a).enabled) [
      | inl on ↦ rw on (arm-Inv a s lt inv)
      | inr off ↦ rw off inv
    ]

    -- Arming allocates nothing.
    pub fresh-arm_enabled : (a : ℕ) (s : State) → (arm_enabled js now a s).fresh ≡ s.fresh
    unfolding arm_enabled
    fresh-arm_enabled a s = elim (Bool-cases (s.heap a).enabled) [
      | inl on ↦ rw on (fresh-arm a s)
      | inr off ↦ rw off
    ]
      where
        fresh-set_timer :
            (next : Option ℕ) (a : ℕ) (s : State) → (set_timer js now next a s).fresh ≡ s.fresh
        fresh-set_timer none a s = refl
        fresh-set_timer (some n) a s = refl

        fresh-arm : (a : ℕ) (s : State) → (arm js now a s).fresh ≡ s.fresh
        fresh-arm a s =
            fresh-set_timer (compute_next_run_at js (s.heap a).cron now) a _
            ∙ ap (λ (u : State). u.fresh) (disarm_rest (s.heap a).id s)

    pub arm_all-Inv :
        (targets : List ℕ) (s : State)
        → All (λ a. a < s.fresh) targets
        → Inv max s
        → Inv max (arm_all js now targets s)
    unfolding arm_all
    arm_all-Inv [] s lt inv = inv
    arm_all-Inv (a ∷ rest) s lt inv =
        arm_all-Inv rest (arm_enabled js now a s) (rw (fresh-arm_enabled a s) lt.1)
          (arm_enabled-Inv a s lt.0 inv)

    pub adopt-Inv : (xs : List Schedule) (s : State) → Inv max s → Inv max (adopt js now xs s)
    unfolding adopt
    adopt-Inv [] s inv = inv
    adopt-Inv (x ∷ xs) s inv = adopt-Inv xs _ (record {
      listed = listed-alloc s.heap s.fresh x s.schedules inv.listed;
      timers_ok = TimersOk-alloc s.heap s.fresh x s.timers s.pending inv.timers_ok;
      runs_ok = RunsOk-alloc s.heap s.fresh x max s.running s.flights inv.runs_ok;
    })
