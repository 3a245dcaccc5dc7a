-- ===== src/Examples/Schedules.antt =====
-- Schedulers at concrete inputs.
use hisohiso.Prelude.{ℕ, ◌≤◌, some, [], ◌∷◌, ◌≡◌, refl, true, false, length}
use hisohiso.Text.{Text, units}
use hisohiso.Cron.Defs.{parse_cron, compute_next_run_at}
use hisohiso.Scheduler.Defs.{Schedule, State, ok, load, disarm, remove, run_now, settle}
use hisohiso.Scheduler.Invariant.{Inv, Distinct, Wired, ids_of, timer_ids, flight_ids, has_id}
use hisohiso.Scheduler.Reach.{
  Reach, here, next, load_step, run_step, start, start-Inv, Step-Inv, Reach-capped, Reach-one_timer,
}
use hisohiso.Scheduler.Contracts.{settle-remove_rearms}
use hisohiso.Examples.Input.{sample_js, sample_spec, sample_schedule}

abbrev any_heap : ℕ → Schedule
any_heap a = sample_schedule

-- One schedule is loaded, and started by hand.
abbrev loaded : State
loaded = load sample_js 1000 (sample_schedule ∷ []) (start any_heap)

abbrev started_by_hand : State
started_by_hand = run_now sample_js 2 2000 (units "sch_a") loaded

to_loaded : Reach sample_js 2 (start any_heap) loaded
to_loaded = next here (load_step 1000 (sample_schedule ∷ []))

to_started : Reach sample_js 2 (start any_heap) started_by_hand
to_started = next to_loaded (run_step 2000 (units "sch_a"))

Reach-capped_example :
    (length started_by_hand.flights ≤ 2)
    × Distinct (flight_ids (ids_of started_by_hand.heap) started_by_hand.flights)
    × (started_by_hand.running ≡ flight_ids (ids_of started_by_hand.heap) started_by_hand.flights)
Reach-capped_example = Reach-capped sample_js 2 any_heap started_by_hand to_started

Reach-one_timer_example :
    Distinct (timer_ids (ids_of loaded.heap) loaded.pending)
    × Wired (ids_of loaded.heap) loaded.timers loaded.pending
Reach-one_timer_example = Reach-one_timer sample_js 2 any_heap loaded to_loaded

loaded-Inv : Inv 2 loaded
loaded-Inv =
    Step-Inv sample_js 2 (load_step 1000 (sample_schedule ∷ [])) (start-Inv sample_js 2 any_heap)

sample_accepted : parse_cron sample_js (loaded.heap 0).cron ≡ some sample_spec
unfolding load parse_cron hisohiso.Text.split_space hisohiso.Text.trim
    hisohiso.Cron.Defs.compute_next_run_at hisohiso.Text.is_space hisohiso.Text.text_eq
    hisohiso.Text.decimal hisohiso.Text.split_on disarm
sample_accepted = refl

sample_removed : (remove sample_js 5000 (units "sch_a") loaded).1 ≡ true
unfolding load remove hisohiso.Cron.Defs.compute_next_run_at hisohiso.Text.split_space
    hisohiso.Text.trim hisohiso.Text.is_space hisohiso.Text.text_eq hisohiso.Text.decimal
    hisohiso.Text.split_on disarm
sample_removed = refl

sample_enabled : (loaded.heap 0).enabled ≡ true
unfolding load hisohiso.Cron.Defs.compute_next_run_at hisohiso.Text.split_space hisohiso.Text.trim
    hisohiso.Text.is_space hisohiso.Text.text_eq hisohiso.Text.decimal hisohiso.Text.split_on disarm
sample_enabled = refl

sample_id_removed : (remove sample_js 5000 (loaded.heap 0).id loaded).1 ≡ true
unfolding load remove hisohiso.Cron.Defs.compute_next_run_at hisohiso.Text.split_space
    hisohiso.Text.trim hisohiso.Text.is_space hisohiso.Text.text_eq hisohiso.Text.decimal
    hisohiso.Text.split_on disarm
sample_id_removed = refl

settle-remove_rearms_example :
    let r = (remove sample_js 5000 (loaded.heap 0).id loaded).0 in
    let t = settle sample_js 2 5000 (record { target = 0; by_timer = true }) [] ok r in
    (has_id (loaded.heap 0).id (timer_ids (ids_of r.heap) r.pending) ≡ false)
    × (has_id (loaded.heap 0).id (timer_ids (ids_of t.heap) t.pending) ≡ true)
settle-remove_rearms_example =
    settle-remove_rearms sample_js 5000 2 0 [] ok loaded sample_spec loaded-Inv sample_enabled
      sample_accepted sample_id_removed
