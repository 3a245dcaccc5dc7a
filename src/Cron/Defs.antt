-- ===== src/Cron/Defs.antt =====
-- The parsers and the next-run scan of cli/src/lib/scheduler.ts.
--
-- `Date.UTC(y, m, d + i, h, mi, 0, 0)` at the UTC date of `from` is, by ECMAScript's MakeDay and
-- MakeTime, the day number of `from` plus i, times the milliseconds of a day, plus the time of day;
-- `getUTCDay` of an instant is (its day number + 4) mod 7.
use hisohiso.Prelude.{
  ℕ, zero, suc, ◌+◌, ◌*◌, ◌/◌, ◌%◌, ◌≡◌, ◌≢◌, Bool, not, ◌&&◌, ◌||◌, Option, none, some, List, [],
  ◌∷◌, ◌++◌, ltb, ◌==◌, if◌then◌else◌, any, length,
}
use hisohiso.Text.{Text, units, text_eq, is_digit, trim, split_on, split_space, decimal}
use hisohiso.Text.Laws.{Units}

-- The parts of the ECMAScript library that the parsers call and that are not defined in `Text`.
pub record Js : Type 0 where
  -- `Number(t)` where `Number.isInteger` holds of it and it is not negative.
  pub number : Text → Option ℕ
  -- `t.toLowerCase()`
  pub lower : Text → Text
  pub number_digits : (t : Text) → t ≢ [] → Units is_digit t → number t ≡ some (decimal t)
  pub number_empty : number [] ≡ some 0

pub record Spec : Type 0 where
  pub hour : ℕ
  pub minute : ℕ
  pub days : List ℕ

-- `Set.prototype.has` and `add`, in insertion order.
abbrev pub has : ℕ → List ℕ → Bool
has d days = any (λ e. e == d) days

unfoldable pub add : ℕ → List ℕ → List ℕ
add d days = if has d days then days else days ++ (d ∷ [])

module _ (js : Js) where
  -- The loop over `dow.split(',')`.
  unfoldable pub parse_dow : List Text → List ℕ → Option (List ℕ)
  unfolding add
  parse_dow [] days = some days
  parse_dow (tok ∷ toks) days = elim (js.number tok) [
    | none ↦ none
    | some d ↦ if ltb 6 d then none else parse_dow toks (add d days)
  ]

  -- The tests on minute, hour and the day set.
  unfoldable pub check_fields : Option ℕ → Option ℕ → Text → Option Spec
  unfolding parse_dow
  check_fields none hour dow = none
  check_fields (some minute) none dow = none
  check_fields (some minute) (some hour) dow =
      if ltb 59 minute
      then none
      else if ltb 23 hour
      then none
      else elim (parse_dow (split_on 44 dow) []) [
        | none ↦ none
        | some days ↦
            if length days == 0
            then none
            else some (record { hour = hour; minute = minute; days = days })
      ]

  unfoldable pub parse_fields : List Text → Option Spec
  unfolding check_fields
  parse_fields (m ∷ h ∷ dom ∷ mon ∷ dow ∷ []) =
      if not (text_eq dom (units "*")) || not (text_eq mon (units "*"))
      then none
      else check_fields (js.number m) (js.number h) dow
  parse_fields parts = none

  unfoldable pub parse_cron : Text → Option Spec
  unfolding parse_fields
  parse_cron cron = parse_fields (split_space (trim cron))

abbrev pub ms_per_day : ℕ
ms_per_day = 86400000

abbrev pub time_of_day : Spec → ℕ
time_of_day spec = spec.hour * 3600000 + spec.minute * 60000

abbrev pub weekday : ℕ → ℕ
weekday t = (t / ms_per_day + 4) % 7

abbrev pub candidate : Spec → ℕ → ℕ → ℕ
candidate spec from i = (from / ms_per_day + i) * ms_per_day + time_of_day spec

-- The loop `for (i = …; i <= 8; i += 1)`, by the rounds left.
unfoldable pub scan : Spec → ℕ → ℕ → ℕ → Option ℕ
scan spec from i zero = none
scan spec from i (suc rounds) =
    let rest = scan spec from (i + 1) rounds in
    if ltb from (candidate spec from i) && has (weekday (candidate spec from i)) spec.days
    then some (candidate spec from i)
    else rest

abbrev pub next_of : ℕ → Option Spec → Option ℕ
next_of from none = none
next_of from (some spec) = scan spec from 0 9

unfoldable pub compute_next_run_at : Js → Text → ℕ → Option ℕ
unfolding parse_cron scan
compute_next_run_at js cron from = next_of from (parse_cron js cron)
