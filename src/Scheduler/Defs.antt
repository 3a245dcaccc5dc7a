-- ===== src/Scheduler/Defs.antt =====
-- The state and the methods of `Scheduler`.
--
-- Schedules are objects that the list, the timer closures and the fires in flight share, so they
-- stand on a heap. A method reads the clock once, as its argument `now`. The fields `mode`,
-- `permissions` and `catchUp` have one value each and are left out, and so is the log.
use hisohiso.Prelude.{
  ℕ, suc, ◌+◌, ◌-◌, ◌%◌, Bool, true, false, not, Option, none, some, List, [], ◌∷◌, ◌++◌, map, ltb,
  leb, ◌==◌, if◌then◌else◌, any, filter, find, length, take,
}
use hisohiso.Text.{collapse, Text, units, text_eq, trim, show_base}
use hisohiso.Cron.Defs.{Js, Spec, parse_cron, compute_next_run_at}

pub data Status : Type 0 where
  ok failed timed_out skipped : Status

pub record Schedule : Type 0 where
  pub id : Text
  pub name : Text
  pub cron : Text
  pub agent : Text
  pub prompt : Text
  pub enabled : Bool
  pub timeout_ms : ℕ
  pub notify_on_error : Bool
  pub next_run_at : Option ℕ
  pub last_run_at : Option ℕ
  pub last_status : Option Status

-- `NewScheduleInput`
pub record Input : Type 0 where
  pub cron : Text
  pub agent : Text
  pub prompt : Text
  pub name : Option Text
  pub timeout_ms : Option ℕ
  pub notify_on_error : Option Bool

-- A live `setTimeout`: its handle, the schedule object that its closure holds, and when it is due.
pub record Timer : Type 0 where
  pub handle : ℕ
  pub target : ℕ
  pub due : ℕ

-- A fire that is awaited, and whether a timer started it (its `finally` re-arms) or `runNow`.
pub record Flight : Type 0 where
  pub target : ℕ
  pub by_timer : Bool

pub record State : Type 0 where
  pub heap : ℕ → Schedule
  pub fresh : ℕ
  pub schedules : List ℕ
  pub timers : List (Text × ℕ)
  pub pending : List Timer
  pub next_handle : ℕ
  pub running : List Text
  pub flights : List Flight
  pub seq : ℕ
  pub persisted : List Schedule

abbrev pub default_timeout_ms : ℕ
default_timeout_ms = 600000

abbrev pub get_or {ℓ} : {A : Type ℓ} → Option A → A → A
get_or none d = d
get_or (some a) d = a

abbrev pub update : (ℕ → Schedule) → ℕ → Schedule → ℕ → Schedule
update heap a s b = if b == a then s else heap b

unfoldable pub derive_name : Text → Text
unfolding collapse
derive_name prompt =
    let compact = trim (collapse false prompt) in
    if ltb 32 (length compact)
    then take 29 compact ++ units "…"
    else if length compact == 0
    then units "schedule"
    else compact

abbrev pub name_of : Option Text → Text → Text
name_of none prompt = derive_name prompt
name_of (some name) prompt = if length (trim name) == 0 then derive_name prompt else trim name

-- `sch_${(++this.seq).toString(36)}${(this.now() % 1000).toString(36)}`
unfoldable pub make_id : ℕ → ℕ → Text
make_id seq now = units "sch_" ++ (show_base 36 seq ++ show_base 36 (now % 1000))

-- The timer map.
unfoldable pub timer_of : Text → List (Text × ℕ) → Option ℕ
timer_of id [] = none
timer_of id ((k, h) ∷ rest) = if text_eq k id then some h else timer_of id rest

unfoldable pub without : Text → List (Text × ℕ) → List (Text × ℕ)
without id [] = []
without id ((k, h) ∷ rest) =
    let others = without id rest in if text_eq k id then others else (k, h) ∷ others

abbrev pub cancel : ℕ → List Timer → List Timer
cancel h = filter (λ t. not (t.handle == h))

unfoldable pub clear : Option ℕ → Text → State → State
unfolding without
clear none id s = s
clear (some h) id s = record s { pending = cancel h s.pending; timers = without id s.timers }

-- `disarm`
unfoldable pub disarm : Text → State → State
unfolding clear timer_of
disarm id s = clear (timer_of id s.timers) id s

-- `this.persist(this.schedules)`
abbrev pub persist : State → State
persist s = record s { persisted = map s.heap s.schedules }

abbrev pub find_id : State → Text → List ℕ → Option ℕ
find_id s id = find (λ a. text_eq (s.heap a).id id)

-- `splice(idx, 1)` at the first schedule with the id.
unfoldable pub splice : State → Text → List ℕ → List ℕ
splice s id [] = []
splice s id (a ∷ others) =
    let rest = splice s id others in if text_eq (s.heap a).id id then others else a ∷ rest

-- `stop`: every timer of the map is cleared.
unfoldable pub stop_each : List (Text × ℕ) → List Timer → List Timer
stop_each [] pending = pending
stop_each ((k, h) ∷ rest) pending = stop_each rest (cancel h pending)

unfoldable pub stop : State → State
unfolding stop_each
stop s = record s { pending = stop_each s.timers s.pending; timers = [] }

module _ (js : Js) (now : ℕ) where
  -- `setTimeout` at the next run, at once if it has just passed.
  unfoldable pub set_timer : Option ℕ → ℕ → State → State
  set_timer none a s = s
  set_timer (some next) a s = record s {
    pending =
        s.pending ++ (record { handle = s.next_handle; target = a; due = now + (next - now) } ∷ []);
    timers = ((s.heap a).id, s.next_handle) ∷ s.timers;
    next_handle = suc s.next_handle;
  }

  unfoldable pub set_next : Option ℕ → ℕ → State → State
  set_next next a s = record s { heap = update s.heap a (record (s.heap a) { next_run_at = next }) }

  -- `arm`
  unfoldable pub arm : ℕ → State → State
  unfolding set_timer set_next
  arm a s =
      let next = compute_next_run_at js (s.heap a).cron now in
      set_timer next a (set_next next a (disarm (s.heap a).id s))

  unfoldable pub arm_enabled : ℕ → State → State
  unfolding arm
  arm_enabled a s = if (s.heap a).enabled then arm a s else s

  -- Copies of the given schedules, as new objects.
  unfoldable pub adopt : List Schedule → State → State
  adopt [] s = s
  adopt (x ∷ xs) s = adopt xs (record s {
    heap = update s.heap s.fresh x;
    fresh = suc s.fresh;
    schedules = s.schedules ++ (s.fresh ∷ []);
  })

  unfoldable pub arm_all : List ℕ → State → State
  unfolding arm_enabled
  arm_all [] s = s
  arm_all (a ∷ rest) s = arm_all rest (arm_enabled a s)

  unfoldable pub load : List Schedule → State → State
  unfolding stop adopt arm_all
  load xs s = let s' = adopt xs (record (stop s) { schedules = [] }) in arm_all s'.schedules s'

  unfoldable pub new_schedule : Input → ℕ → Schedule
  new_schedule input seq = record {
    id = make_id seq now;
    name = name_of input.name input.prompt;
    cron = input.cron;
    agent = input.agent;
    prompt = input.prompt;
    enabled = true;
    timeout_ms = get_or input.timeout_ms default_timeout_ms;
    notify_on_error = get_or input.notify_on_error true;
    next_run_at = compute_next_run_at js input.cron now;
    last_run_at = none;
    last_status = none;
  }

  unfoldable pub push : Schedule → State → State
  push x s = record s {
    heap = update s.heap s.fresh x;
    fresh = suc s.fresh;
    schedules = s.schedules ++ (s.fresh ∷ []);
    seq = suc s.seq;
  }

  -- `add`: the result is a copy of the new schedule.
  unfoldable pub add_valid : Option Spec → Input → State → State × Option Schedule
  unfolding push new_schedule arm
  add_valid none input s = (s, none)
  add_valid (some spec) input s =
      let s' = arm s.fresh (push (new_schedule input (suc s.seq)) s) in
      (persist s', some (s'.heap s.fresh))

  unfoldable pub add : Input → State → State × Option Schedule
  unfolding add_valid
  add input s = add_valid (parse_cron js input.cron) input s

  unfoldable pub pause_at : Option ℕ → Text → State → State × Bool
  pause_at none id s = (s, false)
  pause_at (some a) id s =
      if not (s.heap a).enabled
      then (s, false)
      else let off = record (s.heap a) { enabled = false; next_run_at = none } in
        (persist (disarm id (record s { heap = update s.heap a off })), true)

  unfoldable pub pause : Text → State → State × Bool
  unfolding pause_at
  pause id s = pause_at (find_id s id s.schedules) id s

  unfoldable pub resume_at : Option ℕ → State → State × Bool
  unfolding arm
  resume_at none s = (s, false)
  resume_at (some a) s = if (s.heap a).enabled then (s, false) else (
    persist (arm a (record s { heap = update s.heap a (record (s.heap a) { enabled = true }) })),
    true,
  )

  unfoldable pub resume : Text → State → State × Bool
  unfolding resume_at
  resume id s = resume_at (find_id s id s.schedules) s

  unfoldable pub remove_at : Option ℕ → Text → State → State × Bool
  unfolding splice
  remove_at none id s = (s, false)
  remove_at (some a) id s =
      let s' = disarm id s in (persist (record s' { schedules = splice s' id s'.schedules }), true)

  unfoldable pub remove : Text → State → State × Bool
  unfolding remove_at
  remove id s = remove_at (find_id s id s.schedules) id s

  -- `get` and `list` return copies.
  abbrev pub get : Text → State → Option Schedule
  get id s = elim (find_id s id s.schedules) [ none ↦ none | some a ↦ some (s.heap a) ]

module _ (js : Js) (max_concurrent : ℕ) (now : ℕ) where
  -- `if (schedule.enabled) this.arm(schedule)`, in the `finally` of a timer's fire.
  abbrev pub rearm : Bool → ℕ → State → State
  rearm by_timer a s = if by_timer then arm_enabled js now a s else s

  -- `fireGuarded` up to its `await`: a skipped fire is over at once.
  unfoldable pub fire_guarded : Bool → ℕ → State → State
  fire_guarded by_timer a s =
      if any (λ id. text_eq id (s.heap a).id) s.running
      then rearm by_timer a s
      else if leb max_concurrent (length s.running)
      then rearm by_timer a s
      else record s {
        running = s.running ++ ((s.heap a).id ∷ []);
        heap = update s.heap a (record (s.heap a) { last_run_at = some now });
        flights = s.flights ++ (record { target = a; by_timer = by_timer } ∷ []);
      }

  unfoldable pub run_at : Option ℕ → State → State
  unfolding fire_guarded
  run_at none s = s
  run_at (some a) s = fire_guarded false a s

  unfoldable pub run_now : Text → State → State
  unfolding run_at
  run_now id s = run_at (find_id s id s.schedules) s

  -- A due timer leaves the event loop, and its callback runs.
  unfoldable pub timer_fires : Timer → State → State
  unfolding fire_guarded
  timer_fires t s = fire_guarded true t.target (record s { pending = cancel t.handle s.pending })

  -- The awaited fire settles: status, the `finally` of `fireGuarded`, then that of the timer.
  unfoldable pub settle : Flight → List Flight → Status → State → State
  settle f others status s = rearm f.by_timer f.target (
      persist (record s {
        heap = update s.heap f.target (record (s.heap f.target) { last_status = some status });
        running = filter (λ id. not (text_eq id (s.heap f.target).id)) s.running;
        flights = others;
      }))
