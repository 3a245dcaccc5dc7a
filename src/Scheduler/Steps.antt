-- ===== src/Scheduler/Steps.antt =====
-- cli/src/lib/scheduler.ts: the invariant, method by method.
use hisohiso.Prelude.{
  ℕ, suc, ◌<◌, ◌≡◌, refl, ap, ◌∙◌, Bool, true, false, not, Option, none, some, List, [], ◌∷◌, ◌++◌,
  leb, filter, length, length-append, All, arith, Bool-cases, Option-cases, inl, inr,
  length-filter-le,
}
use hisohiso.Text.{Text, text_eq}
use hisohiso.Text.Laws.{All-append}
use hisohiso.Cron.Defs.{Js, parse_cron, Spec}
use hisohiso.Scheduler.Defs.{
  Schedule, Input, Timer, Flight, Status, State, update, cancel, stop, disarm, arm, adopt, load,
  fire_guarded, settle, rearm, persist, splice, find_id, add, add_valid, push, new_schedule, pause,
  pause_at, resume, resume_at, remove, remove_at, run_now, timer_fires,
}
use hisohiso.Scheduler.Invariant.{
  Inv, ids_of, ids-update, has_id, Distinct, flight_ids, cancel-parts, Distinct-snoc,
}
use hisohiso.Scheduler.Parts.{
  disarm-Inv, update-Inv, persist-Inv, arm-Inv, arm_enabled-Inv, arm_all-Inv, adopt-Inv,
  TimersOk-alloc, RunsOk-alloc, listed-alloc,
}
use hisohiso.Scheduler.Flights.{
  Split, Among, Registered-of_Wired, stop_each-nil, target_of, Split-All, filter-Split,
  Distinct-filter, flight_ids-append,
}

module _ (max : ℕ) where
  pub stop-Inv : (s : State) → Inv max s → Inv max (stop s)
  unfolding stop
  stop-Inv s inv =
      rw
        (stop_each-nil s.timers s.pending
          (Registered-of_Wired (ids_of s.heap) s.timers s.pending inv.timers_ok.wired))
        (record {
          listed = inv.listed;
          timers_ok = record { allocated = tt; wired = tt; one_each = tt };
          runs_ok = inv.runs_ok;
        })

  -- `find` returns an address of the list.
  find_id-lt :
      (s : State) (id : Text) (as' : List ℕ) (a : ℕ)
      → All (λ b. b < s.fresh) as'
      → find_id s id as' ≡ some a
      → a < s.fresh
  find_id-lt s id [] a lt e = absurd (cc)
  find_id-lt s id (b ∷ bs) a lt e = ground (arith, find_id-lt s id bs a lt.1, lt.0)

  splice-All :
      (s : State) (id : Text) (as' : List ℕ) (n : ℕ)
      → All (λ b. b < n) as'
      → All (λ b. b < n) (splice s id as')
  unfolding splice
  splice-All s id [] n lt = tt
  splice-All s id (b ∷ bs) n lt = elim (Bool-cases (text_eq (s.heap b).id id)) [
    | inl hit ↦ rw hit lt.1
    | inr miss ↦ rw miss (lt.0, splice-All s id bs n lt.1)
  ]

  module _ (js : Js) (now : ℕ) where
    pub load-Inv : (xs : List Schedule) (s : State) → Inv max s → Inv max (load js now xs s)
    unfolding load
    load-Inv xs s inv =
        let stopped = stop-Inv s inv in
        let inv' : Inv max (adopt js now xs (record (stop s) { schedules = [] })) =
          adopt-Inv max js now xs _
            (record { listed = tt; timers_ok = stopped.timers_ok; runs_ok = stopped.runs_ok }) in
        arm_all-Inv max js now _ _ inv'.listed inv'

    pub add-Inv : (input : Input) (s : State) → Inv max s → Inv max (add js now input s).0
    unfolding add
    add-Inv input s inv = go (parse_cron js input.cron)
      where
        go : (spec : Option Spec) → Inv max (add_valid js now spec input s).0
        go none = inv
        go (some spec) =
            persist-Inv max
              (arm js now s.fresh (push js now (new_schedule js now input (suc s.seq)) s))
              (arm-Inv max js now s.fresh (push js now (new_schedule js now input (suc s.seq)) s)
                (omega arith)
                (record {
                  listed =
                      listed-alloc s.heap s.fresh (new_schedule js now input (suc s.seq))
                        s.schedules inv.listed;
                  timers_ok =
                      TimersOk-alloc s.heap s.fresh (new_schedule js now input (suc s.seq)) s.timers
                        s.pending inv.timers_ok;
                  runs_ok =
                      RunsOk-alloc s.heap s.fresh (new_schedule js now input (suc s.seq)) max
                        s.running s.flights inv.runs_ok;
                }))

    pub pause-Inv : (id : Text) (s : State) → Inv max s → Inv max (pause js now id s).0
    unfolding pause
    pause-Inv id s inv = go (find_id s id s.schedules)
      where
        go : (found : Option ℕ) → Inv max (pause_at js now found id s).0
        go none = inv
        go (some a) = elim (Bool-cases (s.heap a).enabled) [
          | inl on ↦ rw on (
              persist-Inv max _ (
                disarm-Inv max id _ (
                  update-Inv max s a (record (s.heap a) { enabled = false; next_run_at = none })
                    refl inv)))
          | inr off ↦ rw off inv
        ]

    pub resume-Inv : (id : Text) (s : State) → Inv max s → Inv max (resume js now id s).0
    unfolding resume
    resume-Inv id s inv = elim (Option-cases (find_id s id s.schedules)) [
      | inl missing ↦ rw missing inv
      | inr (a, found) ↦ rw found (go a (find_id-lt s id s.schedules a inv.listed found))
    ]
      where
        go : (a : ℕ) → a < s.fresh → Inv max (resume_at js now (some a) s).0
        go a lt = elim (Bool-cases (s.heap a).enabled) [
          | inl on ↦ rw on inv
          | inr off ↦ simp off (
              persist-Inv max _ (
                arm-Inv max js now a _ lt
                  (update-Inv max s a (record (s.heap a) { enabled = true }) refl inv)))
        ]

    pub remove-Inv : (id : Text) (s : State) → Inv max s → Inv max (remove js now id s).0
    unfolding remove
    remove-Inv id s inv = go (find_id s id s.schedules)
      where
        go : (found : Option ℕ) → Inv max (remove_at js now found id s).0
        go none = inv
        go (some a) =
            let inv' = disarm-Inv max id s inv in
            record {
              listed =
                  splice-All (disarm id s) id (disarm id s).schedules (disarm id s).fresh
                    inv'.listed;
              timers_ok = inv'.timers_ok;
              runs_ok = inv'.runs_ok;
            }

    rearm-Inv :
        (by_timer : Bool) (a : ℕ) (s : State)
        → a < s.fresh
        → Inv max s
        → Inv max (rearm js max now by_timer a s)
    rearm-Inv true a s lt inv = arm_enabled-Inv max js now a s lt inv
    rearm-Inv false a s lt inv = inv

    pub fire_guarded-Inv :
        (by_timer : Bool) (a : ℕ) (s : State)
        → a < s.fresh
        → Inv max s
        → Inv max (fire_guarded js max now by_timer a s)
    unfolding fire_guarded
    fire_guarded-Inv by_timer a s lt inv = elim (Bool-cases (has_id (s.heap a).id s.running)) [
      | inl busy ↦ rw busy (rearm-Inv by_timer a s lt inv)
      | inr idle ↦ elim (Bool-cases (leb max (length s.running))) [
        | inl full ↦ rw (idle, full) (rearm-Inv by_timer a s lt inv)
        | inr room ↦
            rw (idle, room)
              (record {
                listed = inv.listed;
                timers_ok = rw same inv.timers_ok;
                runs_ok = record {
                  allocated = All-append _ s.flights _ inv.runs_ok.allocated (lt, tt);
                  tracked = rw same (
                      rw
                        (flight_ids-append (ids_of s.heap) s.flights
                          (record { target = a; by_timer = by_timer } ∷ []))
                        (ap (λ l. l ++ ((s.heap a).id ∷ [])) inv.runs_ok.tracked));
                  no_overlap =
                      Distinct-snoc (ids_of s.heap) (s.heap a).id s.running idle
                        inv.runs_ok.no_overlap;
                  capped =
                      ground
                        (arith, length-append s.running ((s.heap a).id ∷ []), inv.runs_ok.capped);
                };
              })
      ]
    ]
      where
        same :
            ids_of (update s.heap a (record (s.heap a) { last_run_at = some now })) ≡ ids_of s.heap
        same = ids-update s.heap a (record (s.heap a) { last_run_at = some now }) refl

    pub run_now-Inv : (id : Text) (s : State) → Inv max s → Inv max (run_now js max now id s)
    unfolding run_now
    run_now-Inv id s inv = elim (Option-cases (find_id s id s.schedules)) [
      | inl missing ↦ rw missing inv
      | inr (a, found) ↦
          rw found (fire_guarded-Inv false a s (find_id-lt s id s.schedules a inv.listed found) inv)
    ]

    pub timer_fires-Inv :
        (t : Timer) (s : State)
        → Among t s.pending
        → Inv max s
        → Inv max (timer_fires js max now t s)
    unfolding timer_fires
    timer_fires-Inv t s m inv =
        fire_guarded-Inv true t.target (record s { pending = cancel t.handle s.pending })
          (target_of t m inv.timers_ok.allocated)
          (record {
            listed = inv.listed;
            timers_ok =
                cancel-parts (ids_of s.heap) s.fresh t.handle s.timers s.pending inv.timers_ok;
            runs_ok = inv.runs_ok;
          })

    pub settle-Inv :
        (f : Flight) (others : List Flight) (status : Status) (s : State)
        → Split f s.flights others
        → Inv max s
        → Inv max (settle js max now f others status s)
    unfolding settle
    settle-Inv f others status s split inv =
        let heap : ℕ → Schedule =
          update s.heap f.target (record (s.heap f.target) { last_status = some status }) in
        let same : ids_of heap ≡ ids_of s.heap =
          ids-update s.heap f.target (record (s.heap f.target) { last_status = some status })
            refl in
        let (lt, rest) = Split-All (λ g. g.target < s.fresh) f split inv.runs_ok.allocated in
        let d : Distinct (flight_ids (ids_of s.heap) s.flights) =
          rw inv.runs_ok.tracked at inv.runs_ok.no_overlap in
        let over : State = record s {
          heap = heap;
          running = filter (λ id. not (text_eq id (s.heap f.target).id)) s.running;
          flights = others;
        } in
        rearm-Inv f.by_timer f.target (persist over) lt (
          persist-Inv max over (record {
            listed = inv.listed;
            timers_ok = rw same inv.timers_ok;
            runs_ok = record {
              allocated = rest;
              tracked = rw same (
                  ap (filter (λ id. not (text_eq id (s.heap f.target).id))) inv.runs_ok.tracked
                  ∙ filter-Split (ids_of s.heap) f split d);
              no_overlap = Distinct-filter (ids_of s.heap) _ s.running inv.runs_ok.no_overlap;
              capped = omega (
                arith,
                length-filter-le {0} (λ id. not (text_eq id (s.heap f.target).id)) s.running,
                inv.runs_ok.capped,
              );
            };
          }))
