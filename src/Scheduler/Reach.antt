-- ===== src/Scheduler/Reach.antt =====
-- Every interleaving of method calls, due timers and settling fires.
use hisohiso.Prelude.{ℕ, ◌≤◌, ◌≡◌, List, [], length, refl, ap, arith, length-map}
use Prim.Native.Nat.{zero-le}
use hisohiso.Text.{Text}
use hisohiso.Cron.Defs.{Js}
use hisohiso.Scheduler.Defs.{
  Schedule, Input, Timer, Flight, Status, State, stop, load, add, pause, resume, remove, run_now,
  timer_fires, settle,
}
use hisohiso.Scheduler.Invariant.{Inv, Distinct, Wired, ids_of, timer_ids, flight_ids}
use hisohiso.Scheduler.Flights.{Split, Among}
use hisohiso.Scheduler.Steps.{
  stop-Inv, load-Inv, add-Inv, pause-Inv, resume-Inv, remove-Inv, run_now-Inv, timer_fires-Inv,
  settle-Inv,
}

-- A scheduler as constructed, over any heap of other objects.
abbrev pub start : (ℕ → Schedule) → State
start heap = record {
  heap = heap;
  fresh = 0;
  schedules = [];
  timers = [];
  pending = [];
  next_handle = 0;
  running = [];
  flights = [];
  seq = 0;
  persisted = [];
}

module _ (js : Js) (max : ℕ) where
  pub data Step (s : State) : State → Type 0 where
    load_step : (now : ℕ) (xs : List Schedule) → Step s (load js now xs s)
    stop_step : Step s (stop s)
    add_step : (now : ℕ) (input : Input) → Step s (add js now input s).0
    pause_step : (now : ℕ) (id : Text) → Step s (pause js now id s).0
    resume_step : (now : ℕ) (id : Text) → Step s (resume js now id s).0
    remove_step : (now : ℕ) (id : Text) → Step s (remove js now id s).0
    run_step : (now : ℕ) (id : Text) → Step s (run_now js max now id s)
    timer_step :
        (now : ℕ) (t : Timer)
        → Among t s.pending
        → t.due ≤ now
        → Step s (timer_fires js max now t s)
    settle_step :
        (now : ℕ) (f : Flight) (others : List Flight) (status : Status)
        → Split f s.flights others
        → Step s (settle js max now f others status s)

  pub data Reach (s : State) : State → Type 0 where
    here : Reach s s
    next : {t u : State} → Reach s t → Step t u → Reach s u

  pub Step-Inv : {s t : State} → Step s t → Inv max s → Inv max t
  Step-Inv {s} (load_step now xs) inv = load-Inv max js now xs s inv
  Step-Inv {s} stop_step inv = stop-Inv max s inv
  Step-Inv {s} (add_step now input) inv = add-Inv max js now input s inv
  Step-Inv {s} (pause_step now id) inv = pause-Inv max js now id s inv
  Step-Inv {s} (resume_step now id) inv = resume-Inv max js now id s inv
  Step-Inv {s} (remove_step now id) inv = remove-Inv max js now id s inv
  Step-Inv {s} (run_step now id) inv = run_now-Inv max js now id s inv
  Step-Inv {s} (timer_step now t m due) inv = timer_fires-Inv max js now t s m inv
  Step-Inv {s} (settle_step now f others status split) inv =
      settle-Inv max js now f others status s split inv

  pub start-Inv : (heap : ℕ → Schedule) → Inv max (start heap)
  start-Inv heap = record {
    listed = tt;
    timers_ok = record { allocated = tt; wired = tt; one_each = tt };
    runs_ok = record { allocated = tt; tracked = refl; no_overlap = tt; capped = zero-le };
  }

  pub Reach-Inv : (heap : ℕ → Schedule) {s : State} → Reach (start heap) s → Inv max s
  Reach-Inv heap here = start-Inv heap
  Reach-Inv heap (next r st) = Step-Inv st (Reach-Inv heap r)

  -- In every state that a scheduler reaches, whatever the calls, the timers and the results, no
  -- more than the configured number of fires are in flight, and no two of them are of one
  -- schedule id; the running set is exactly the ids of the fires in flight.
  pub Reach-capped :
      (heap : ℕ → Schedule) (s : State)
      → Reach (start heap) s
      → (length s.flights ≤ max)
        × Distinct (flight_ids (ids_of s.heap) s.flights)
        × (s.running ≡ flight_ids (ids_of s.heap) s.flights)
  Reach-capped heap s r =
      let ok = (Reach-Inv heap r).runs_ok in
      let tracked = ok.tracked in
      (
        omega (
          arith,
          ok.capped,
          ap length tracked,
          length-map (λ (f : Flight). (s.heap f.target).id) s.flights,
        ),
        rw tracked at ok.no_overlap,
        tracked,
      )

  -- In every state that a scheduler reaches there is at most one live timer for each schedule id,
  -- and the timer map holds its handle, so that it can be cleared.
  pub Reach-one_timer :
      (heap : ℕ → Schedule) (s : State)
      → Reach (start heap) s
      → Distinct (timer_ids (ids_of s.heap) s.pending) × Wired (ids_of s.heap) s.timers s.pending
  Reach-one_timer heap s r =
      ((Reach-Inv heap r).timers_ok.one_each, (Reach-Inv heap r).timers_ok.wired)
