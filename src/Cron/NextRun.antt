-- ===== src/Cron/NextRun.antt =====
-- cli/src/lib/scheduler.ts: the instants that `computeNextRunAt` returns.
use hisohiso.Prelude.{
  ℕ, zero, suc, ◌+◌, ◌-◌, ◌*◌, ◌/◌, ◌%◌, ◌≤◌, ◌<◌, ◌≡◌, ◌≢◌, ◌↔◌, ==_iff, inl, inr, Bool, true,
  false, ◌&&◌, none, some, List, [], ◌∷◌, ltb, ◌==◌, arith, All, Bool-cases, Option-cases, refl,
  ltb→lt, &&-true,
}
use hisohiso.Text.{Text}
use hisohiso.Cron.Valid.{IsValid, parse_cron-IsValid}
use hisohiso.Cron.Defs.{
  Js, Spec, has, scan, candidate, time_of_day, weekday, ms_per_day, parse_cron, compute_next_run_at,
}

-- An instant at which the schedule fires: its time of day and its weekday are the spec's.
pub record Fires (spec : Spec) (t : ℕ) : Type 0 where
  pub on_time : t % ms_per_day ≡ time_of_day spec
  pub on_day : has (weekday t) spec.days ≡ true

module _ (spec : Spec) (valid : IsValid spec) (from : ℕ) where
  candidate_parts :
      (i : ℕ)
      → (candidate spec from i % ms_per_day ≡ time_of_day spec)
        × (candidate spec from i / ms_per_day ≡ from / ms_per_day + i)
  candidate_parts i = omega (arith, valid.hour_ok, valid.minute_ok)

  -- A firing instant after `from` is the candidate of its own day.
  candidate_of : (t : ℕ) → Fires spec t → from < t → (i : ℕ) × (t ≡ candidate spec from i)
  candidate_of t f h = (t / ms_per_day - from / ms_per_day, omega (arith, f.on_time))

  test_of_Fires :
      (t : ℕ) → Fires spec t → from < t → (ltb from t && has (weekday t) spec.days) ≡ true
  test_of_Fires t f h = ground (arith, f.on_day)

  abbrev test : ℕ → Bool
  test i = ltb from (candidate spec from i) && has (weekday (candidate spec from i)) spec.days

  missed :
      (i j : ℕ)
      → test i ≡ false
      → i ≤ j
      → Fires spec (candidate spec from j)
      → from < candidate spec from j
      → i + 1 ≤ j
  missed i j miss le f lt = elim (Bool-cases (i == j)) [
    | inl here ↦
        let e : i ≡ j = (==_iff i j).0 here in
        let hit : test i ≡ true = rw e (test_of_Fires (candidate spec from j) f lt) in
        absurd (cc (miss, hit))
    | inr there ↦ ground arith
  ]

  -- What the loop returns is a firing instant after `from`, and no later than any candidate from
  -- the loop's index on.
  scan_sound :
      (rounds i r : ℕ)
      → scan spec from i rounds ≡ some r
      → (from < r)
        × Fires spec r
        × ((j : ℕ)
            → i ≤ j
            → Fires spec (candidate spec from j)
            → from < candidate spec from j
            → r ≤ candidate spec from j)
  unfolding scan
  scan_sound zero i r h = absurd (cc)
  scan_sound (suc rounds) i r h = elim (Bool-cases (test i)) [
    | inl hit ↦
        let (after, on) = &&-true _ _ hit in
        let e : candidate spec from i ≡ r = ground (arith, hit) in
        rw (← e) (
          ltb→lt from _ after,
          record { on_time = (candidate_parts i).0; on_day = on },
          λ j le f lt. omega arith,
        )
    | inr miss ↦
        let later : scan spec from (i + 1) rounds ≡ some r = ground (arith, miss) in
        let (after, on, least) = scan_sound rounds (i + 1) r later in
        (after, on, λ j le f lt. least j (missed i j miss le f lt) f lt)
  ]

  scan_total :
      (rounds i j : ℕ)
      → i ≤ j
      → j < i + rounds
      → Fires spec (candidate spec from j)
      → from < candidate spec from j
      → (r : ℕ) × (scan spec from i rounds ≡ some r)
  unfolding scan
  scan_total zero i j p q f h = absurd (omega arith)
  scan_total (suc rounds) i j p q f h = elim (Bool-cases (test i)) [
    | inl hit ↦ (candidate spec from i, rw hit)
    | inr miss ↦
        let (r, e) = scan_total rounds (i + 1) j (missed i j miss p f h) (omega arith) f h in
        (r, rw miss e)
  ]

  -- Some day of the next eight is a firing day whose time is still to come, within seven days.
  upcoming_day :
      (d : ℕ)
      → has d spec.days ≡ true
      → d ≤ 6
      → (j : ℕ) × (j ≤ 7)
        × Fires spec (candidate spec from j)
        × (from < candidate spec from j)
        × (candidate spec from j ≤ from + 7 * ms_per_day)
  upcoming_day d hd small =
      let k : ℕ = (d + 14 - (from / ms_per_day + 4) % 7) % 7 in
      let day : weekday (candidate spec from k) ≡ d = omega (arith, candidate_parts k) in
      let fires : Fires spec (candidate spec from k) = record {
        on_time = (candidate_parts k).0;
        on_day = rw day hd;
      } in
      elim (Bool-cases (ltb from (candidate spec from k))) [
        | inl ahead ↦
            (k, omega arith, fires, ground arith, omega (arith, valid.hour_ok, valid.minute_ok))
        | inr past ↦
            let today : k ≡ 0 = ground (arith, valid.hour_ok, valid.minute_ok) in
            let again : weekday (candidate spec from 7) ≡ d =
              omega (arith, candidate_parts 7, candidate_parts k) in
            (
              7,
              omega arith,
              record { on_time = (candidate_parts 7).0; on_day = rw again hd },
              omega (arith, valid.hour_ok, valid.minute_ok),
              ground (arith, today, valid.hour_ok, valid.minute_ok),
            )
      ]

some_has :
    (days : List ℕ) → All (λ d. d ≤ 6) days → days ≢ [] → (d : ℕ) × (has d days ≡ true) × (d ≤ 6)
some_has [] h ne = absurd (ne refl)
some_has (d ∷ days) h ne = (d, ground arith, h.0)

-- Every valid spec has a next run: nine rounds are enough. It is the first instant after `from`
-- with the spec's time of day on one of its weekdays, and lies within seven days.
scan_first :
    (spec : Spec)
    → IsValid spec
    → (from : ℕ)
    → (r : ℕ) × (scan spec from 0 9 ≡ some r)
      × (from < r)
      × (r ≤ from + 7 * ms_per_day)
      × Fires spec r
      × ((t : ℕ) → Fires spec t → from < t → r ≤ t)
scan_first spec valid from =
    let (d, hd, small) = some_has spec.days valid.days_ok valid.some_day in
    let (j, le, f, ahead, near) = upcoming_day spec valid from d hd small in
    let (r, e) = scan_total spec valid from 9 0 j (omega arith) (omega arith) f ahead in
    let (after, fires, least) = scan_sound spec valid from 9 0 r e in
    (
      r,
      e,
      after,
      omega (arith, least j (omega arith) f ahead),
      fires,
      λ t ft lt.
          let (i, at) = candidate_of spec valid from t ft lt in
          rw at (least i (omega arith) (rw at at ft) (rw at at lt)),
    )

module _ (js : Js) where
  pub compute_next_run_at_first :
      (cron : Text) (spec : Spec) (from : ℕ)
      → parse_cron js cron ≡ some spec
      → (r : ℕ) × (compute_next_run_at js cron from ≡ some r)
        × (from < r)
        × (r ≤ from + 7 * ms_per_day)
        × Fires spec r
        × ((t : ℕ) → Fires spec t → from < t → r ≤ t)
  unfolding compute_next_run_at
  compute_next_run_at_first cron spec from e =
      rw e (scan_first spec (parse_cron-IsValid js cron spec e) from)

  -- For every cron text that `parseCron` accepts and every instant, `computeNextRunAt` returns an
  -- instant, later than the given one and at most seven days ahead, that has the cron's time of day on
  -- one of its weekdays.
  pub compute_next_run_at-Fires :
      (cron : Text) (spec : Spec) (from : ℕ)
      → parse_cron js cron ≡ some spec
      → (r : ℕ) × (compute_next_run_at js cron from ≡ some r)
        × (from < r)
        × (r ≤ from + 7 * ms_per_day)
        × Fires spec r
  compute_next_run_at-Fires cron spec from e =
      let first = compute_next_run_at_first cron spec from e in
      (first.0, first.1, first.2, first.3, first.4)

  -- No firing instant is skipped: at or before every instant after the given one that has the cron's
  -- time of day on one of its weekdays lies the instant that `computeNextRunAt` returns.
  pub compute_next_run_at-least :
      (cron : Text) (spec : Spec) (from t : ℕ)
      → parse_cron js cron ≡ some spec
      → Fires spec t
      → from < t
      → (r : ℕ) × (compute_next_run_at js cron from ≡ some r) × (r ≤ t)
  compute_next_run_at-least cron spec from t e fires later =
      let first = compute_next_run_at_first cron spec from e in
      (first.0, first.1, first.5 t fires later)

  -- `computeNextRunAt` returns nothing exactly for the texts that `parseCron` rejects.
  pub compute_next_run_at-none :
      (cron : Text) (from : ℕ)
      → (compute_next_run_at js cron from ≡ none) ↔ (parse_cron js cron ≡ none)
  compute_next_run_at-none cron from = elim (Option-cases (parse_cron js cron)) [
    | inl bad ↦ (λ _. bad, λ _. unfold compute_next_run_at in rw bad)
    | inr (spec, good) ↦
        let found = (compute_next_run_at_first cron spec from good).1 in
        (λ e. absurd (cc (found, e)), λ e. absurd (cc (good, e)))
  ]
