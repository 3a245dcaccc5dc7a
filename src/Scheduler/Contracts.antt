-- ===== src/Scheduler/Contracts.antt =====
-- cli/src/lib/scheduler.ts: what the methods of `Scheduler` do to the timers of an id.
use hisohiso.Prelude.{
  ℕ, ◌+◌, ◌-◌, ◌<◌, ◌≡◌, refl, sym, ap, ◌∙◌, true, false, not, Option, none, some, List, [], ◌∷◌,
  ◌++◌, filter, arith,
}
use hisohiso.Text.{Text, text_eq}
use hisohiso.Text.Laws.{text_eq_refl}
use hisohiso.Cron.Defs.{Js, Spec, parse_cron, compute_next_run_at}
use hisohiso.Cron.NextRun.{Fires, compute_next_run_at_first}
use hisohiso.Scheduler.Defs.{
  Schedule, Timer, Flight, Status, State, update, disarm, set_timer, set_next, arm, arm_enabled,
  settle, persist, find_id, remove, remove_at,
}
use hisohiso.Scheduler.Invariant.{
  Inv, TimersOk, ids_of, ids-update, has_id, timer_ids, disarm-parts,
}
use hisohiso.Scheduler.Parts.{disarm_rest}

module _ (js : Js) (now : ℕ) where
  -- What `arm` does when there is a next run.
  arm_timer :
      (a : ℕ) (s : State) (r : ℕ)
      → compute_next_run_at js (s.heap a).cron now ≡ some r
      → ((arm js now a s).pending
          ≡ (disarm (s.heap a).id s).pending
            ++ (record { handle = s.next_handle; target = a; due = now + (r - now) } ∷ []))
        × (((arm js now a s).heap a).next_run_at ≡ some r)
        × (ids_of (arm js now a s).heap ≡ ids_of s.heap)
  unfolding arm set_timer set_next
  arm_timer a s r e = rw (disarm_rest (s.heap a).id s) (
      rw e
        (refl, ground arith, ids-update s.heap a (record (s.heap a) { next_run_at = some r }) refl))

  -- After `arm` of a schedule with an accepted cron, its next run is the instant that
  -- `computeNextRunAt` gives for now, which is later than now and has the cron's time of day on one of
  -- its weekdays; and the live timers are those that `disarm` left and one for this schedule, due at
  -- that instant.
  pub arm-Fires :
      (a : ℕ) (s : State) (spec : Spec)
      → parse_cron js (s.heap a).cron ≡ some spec
      → (r : ℕ) × (now < r)
        × Fires spec r
        × (compute_next_run_at js (s.heap a).cron now ≡ some r)
        × (((arm js now a s).heap a).next_run_at ≡ some r)
        × ((arm js now a s).pending
            ≡ (disarm (s.heap a).id s).pending
              ++ (record { handle = s.next_handle; target = a; due = r } ∷ []))
  arm-Fires a s spec ok =
      let first = compute_next_run_at_first js (s.heap a).cron spec now ok in
      let r : ℕ = first.0 in
      let armed = arm_timer a s r first.1 in
      let on_time : now + (r - now) ≡ r = omega (arith, first.2) in
      (r, first.2, first.4, first.1, armed.1, rw on_time at armed.0)

  has_id-snoc :
      (ids : ℕ → Text) (ts : List Timer) (t : Timer)
      → has_id (ids t.target) (timer_ids ids (ts ++ (t ∷ []))) ≡ true
  has_id-snoc ids [] t = ground (arith, text_eq_refl (ids t.target))
  has_id-snoc ids (u ∷ ts) t = ground (arith, has_id-snoc ids ts t)

  arm_live :
      (a : ℕ) (s : State) (spec : Spec)
      → parse_cron js (s.heap a).cron ≡ some spec
      → has_id (s.heap a).id (timer_ids (ids_of (arm js now a s).heap) (arm js now a s).pending)
        ≡ true
  arm_live a s spec ok =
      let first = compute_next_run_at_first js (s.heap a).cron spec now ok in
      let armed = arm_timer a s first.0 first.1 in
      rw (armed.0, armed.2) (has_id-snoc (ids_of s.heap) (disarm (s.heap a).id s).pending _)

module _ (js : Js) (now max : ℕ) where
  heap-disarm : (id : Text) (s : State) → (disarm id s).heap ≡ s.heap
  heap-disarm id s = ap (λ (u : State). u.heap) (disarm_rest id s)

  heap-remove : (id : Text) (s : State) → (remove js now id s).0.heap ≡ s.heap
  unfolding remove
  heap-remove id s = go (find_id s id s.schedules)
    where
      go : (found : Option ℕ) → (remove_at js now found id s).0.heap ≡ s.heap
      go none = refl
      go (some a) = heap-disarm id s

  quiet :
      (id : Text) (s : State)
      → TimersOk (ids_of s.heap) s.fresh s.timers s.pending
      → has_id id (timer_ids (ids_of (disarm id s).heap) (disarm id s).pending) ≡ false
  quiet id s ok = rw (heap-disarm id s) (disarm-parts id s ok).1

  -- When `remove` says that it removed a schedule, no live timer is left for its id.
  pub remove_quiet :
      (id : Text) (s : State)
      → Inv max s
      → (remove js now id s).1 ≡ true
      → has_id id (timer_ids (ids_of (remove js now id s).0.heap) (remove js now id s).0.pending)
        ≡ false
  unfolding remove
  remove_quiet id s inv = go (find_id s id s.schedules)
    where
      go :
          (found : Option ℕ)
          → (remove_at js now found id s).1 ≡ true
          → has_id id (
              timer_ids
                (ids_of (remove_at js now found id s).0.heap)
                (remove_at js now found id s).0.pending)
            ≡ false
      go none e = absurd (cc)
      go (some a) e = quiet id s inv.timers_ok

  rearm_live :
      (a : ℕ) (t : State) (spec : Spec)
      → (t.heap a).enabled ≡ true
      → parse_cron js (t.heap a).cron ≡ some spec
      → has_id
          (t.heap a).id
          (timer_ids (ids_of (arm_enabled js now a t).heap) (arm_enabled js now a t).pending)
        ≡ true
  unfolding arm_enabled
  rearm_live a t spec on ok = simp on (arm_live js now a t spec ok)

  kept :
      (heap : ℕ → Schedule) (a : ℕ) (status : Option Status)
      → update heap a (record (heap a) { last_status = status }) a
        ≡ record (heap a) { last_status = status }
  kept heap a status = ground arith

  -- A fire that a timer started arms its schedule again when it settles, if the schedule is enabled
  -- and its cron is accepted; whether the schedule is still listed is not asked.
  settle_rearms :
      (a : ℕ) (others : List Flight) (status : Status) (s : State) (spec : Spec)
      → (s.heap a).enabled ≡ true
      → parse_cron js (s.heap a).cron ≡ some spec
      → let t = settle js max now (record { target = a; by_timer = true }) others status s in
        has_id (s.heap a).id (timer_ids (ids_of t.heap) t.pending) ≡ true
  unfolding settle
  settle_rearms a others status s spec on ok =
      let done : State = persist (record s {
        heap = update s.heap a (record (s.heap a) { last_status = some status });
        running = filter (λ id. not (text_eq id (s.heap a).id)) s.running;
        flights = others;
      }) in
      let same = kept s.heap a (some status) in
      let on' : (done.heap a).enabled ≡ true = ap (λ (x : Schedule). x.enabled) same ∙ on in
      let ok' : parse_cron js (done.heap a).cron ≡ some spec =
        ap (λ (x : Schedule). parse_cron js x.cron) same ∙ ok in
      ap
        (λ (x : Schedule).
          has_id x.id (
            timer_ids (ids_of (arm_enabled js now a done).heap)
              (arm_enabled js now a done).pending))
        (sym same)
      ∙ rearm_live a done spec on' ok'

  -- When an enabled schedule with an accepted cron is removed and a fire of it that a timer started
  -- settles afterwards, the removed schedule has a live timer again, although `remove` left none.
  pub settle-remove_rearms :
      (a : ℕ) (others : List Flight) (status : Status) (s : State) (spec : Spec)
      → Inv max s
      → (s.heap a).enabled ≡ true
      → parse_cron js (s.heap a).cron ≡ some spec
      → (remove js now (s.heap a).id s).1 ≡ true
      → let r = (remove js now (s.heap a).id s).0 in
        let t = settle js max now (record { target = a; by_timer = true }) others status r in
        (has_id (s.heap a).id (timer_ids (ids_of r.heap) r.pending) ≡ false)
        × (has_id (s.heap a).id (timer_ids (ids_of t.heap) t.pending) ≡ true)
  settle-remove_rearms a others status s spec inv on ok removed =
      let r : State = (remove js now (s.heap a).id s).0 in
      let same : r.heap ≡ s.heap = heap-remove (s.heap a).id s in
      let on' : (r.heap a).enabled ≡ true = ap (λ (h : ℕ → Schedule). (h a).enabled) same ∙ on in
      let ok' : parse_cron js (r.heap a).cron ≡ some spec =
        ap (λ (h : ℕ → Schedule). parse_cron js (h a).cron) same ∙ ok in
      let t : State = settle js max now (record { target = a; by_timer = true }) others status r in
      (
        remove_quiet (s.heap a).id s inv removed,
        ap (λ (h : ℕ → Schedule). has_id (h a).id (timer_ids (ids_of t.heap) t.pending)) (sym same)
            ∙ settle_rearms a others status r spec on' ok',
      )
