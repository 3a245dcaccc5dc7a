-- ===== src/Scheduler/Flights.antt =====
-- cli/src/lib/scheduler.ts: stopping, and the settling of fires.
use hisohiso.Prelude.{
  ℕ, ◌<◌, ◌≡◌, refl, ap, Bool, true, false, not, some, List, [], ◌∷◌, ◌++◌, ◌==◌, any, filter, All,
  arith, Bool-cases, inl, inr,
}
use hisohiso.Text.{Text, text_eq}
use hisohiso.Text.Laws.{text_eq_iff, text_eq_refl}
use hisohiso.Scheduler.Defs.{Timer, Flight, timer_of, cancel, stop_each}
use hisohiso.Scheduler.Invariant.{has_id, Distinct, flight_ids, Wired}

-- `stop` clears every live timer, since the map holds them all.
abbrev pub Registered : List (Text × ℕ) → List Timer → Type 0
Registered timers = All (λ t. any (λ e. e.1 == t.handle) timers ≡ true)

registered_of :
    (id : Text) (h : ℕ) (timers : List (Text × ℕ))
    → timer_of id timers ≡ some h
    → any (λ e. e.1 == h) timers ≡ true
unfolding timer_of
registered_of id h [] e = absurd (cc)
registered_of id h ((k, n) ∷ rest) e = ground (arith, registered_of id h rest)

pub Registered-of_Wired :
    (ids : ℕ → Text) (timers : List (Text × ℕ)) (pending : List Timer)
    → Wired ids timers pending
    → Registered timers pending
Registered-of_Wired ids timers [] w = tt
Registered-of_Wired ids timers (t ∷ ts) w =
    (registered_of (ids t.target) t.handle timers w.0, Registered-of_Wired ids timers ts w.1)

Registered-cancel :
    (k : Text) (h : ℕ) (rest : List (Text × ℕ)) (pending : List Timer)
    → Registered ((k, h) ∷ rest) pending
    → Registered rest (cancel h pending)
Registered-cancel k h rest [] r = tt
Registered-cancel k h rest (t ∷ ts) r = elim (Bool-cases (t.handle == h)) [
  | inl gone ↦ rw gone (Registered-cancel k h rest ts r.1)
  | inr kept ↦ rw kept (ground (arith, r.0), Registered-cancel k h rest ts r.1)
]

pub stop_each-nil :
    (timers : List (Text × ℕ)) (pending : List Timer)
    → Registered timers pending
    → stop_each timers pending ≡ []
unfolding stop_each
stop_each-nil [] [] r = refl
stop_each-nil [] (t ∷ ts) r = absurd (cc (r.0))
stop_each-nil ((k, h) ∷ rest) pending r =
    stop_each-nil rest (cancel h pending) (Registered-cancel k h rest pending r)

-- A flight and the others of a list.
pub data Split (f : Flight) : List Flight → List Flight → Type 0 where
  here : {fs : List Flight} → Split f (f ∷ fs) fs
  there : {g : Flight} {fs gs : List Flight} → Split f fs gs → Split f (g ∷ fs) (g ∷ gs)

-- A live timer of the list.
pub data Among (t : Timer) : List Timer → Type 0 where
  first : {ts : List Timer} → Among t (t ∷ ts)
  later : {u : Timer} {ts : List Timer} → Among t ts → Among t (u ∷ ts)

pub target_of :
    {n : ℕ} (t : Timer) {ts : List Timer} → Among t ts → All (λ u. u.target < n) ts → t.target < n
target_of t first a = a.0
target_of t (later m) a = target_of t m a.1

pub Split-All :
    (P : Flight → Type 0) (f : Flight) {fs gs : List Flight}
    → Split f fs gs
    → All P fs
    → P f × All P gs
Split-All P f here a = a
Split-All P f (there s) a = let (p, rest) = Split-All P f s a.1 in (p, (a.0, rest))

filter_absent :
    (k : Text) (ks : List Text) → has_id k ks ≡ false → filter (λ id. not (text_eq id k)) ks ≡ ks
filter_absent k [] h = refl
filter_absent k (j ∷ ks) h = ground (arith, filter_absent k ks)

module _ (ids : ℕ → Text) where
  has_id-Split :
      (f : Flight) {fs gs : List Flight}
      → Split f fs gs
      → has_id (ids f.target) (flight_ids ids fs) ≡ true
  has_id-Split f here = ground (arith, text_eq_refl (ids f.target))
  has_id-Split f (there {g = g} s) = ground (arith, has_id-Split f s)

  -- Deleting the id of one flight from the ids of all leaves those of the others.
  pub filter-Split :
      (f : Flight) {fs gs : List Flight}
      → Split f fs gs
      → Distinct (flight_ids ids fs)
      → filter (λ id. not (text_eq id (ids f.target))) (flight_ids ids fs) ≡ flight_ids ids gs
  filter-Split f (here {fs = fs}) d =
      ground (arith, text_eq_refl (ids f.target), filter_absent (ids f.target) (flight_ids ids fs))
  filter-Split f (there {g = g} {fs = fs} s) d = ground (
    arith,
    filter-Split f s d.1,
    has_id_at (flight_ids ids fs) (has_id-Split f s),
    text_eq_iff (ids g.target) (ids f.target),
  )
    where
      has_id_at :
          (ks : List Text)
          → has_id (ids f.target) ks ≡ true
          → text_eq (ids g.target) (ids f.target) ≡ true
          → has_id (ids g.target) ks ≡ true
      has_id_at ks h e = let same : ids g.target ≡ ids f.target = (text_eq_iff _ _).0 e in rw same h

  pub Distinct-filter : (p : Text → Bool) (ks : List Text) → Distinct ks → Distinct (filter p ks)
  Distinct-filter p [] d = tt
  Distinct-filter p (k ∷ ks) d = elim (Bool-cases (p k)) [
    | inl kept ↦ rw kept (absent ks d.0, Distinct-filter p ks d.1)
    | inr gone ↦ rw gone (Distinct-filter p ks d.1)
  ]
    where
      absent : (js : List Text) → has_id k js ≡ false → has_id k (filter p js) ≡ false
      absent [] h = refl
      absent (j ∷ js) h = ground (arith, absent js)

  pub flight_ids-append :
      (fs gs : List Flight) → flight_ids ids (fs ++ gs) ≡ flight_ids ids fs ++ flight_ids ids gs
  flight_ids-append [] gs = refl
  flight_ids-append (f ∷ fs) gs = ap (λ l. ids f.target ∷ l) (flight_ids-append fs gs)
