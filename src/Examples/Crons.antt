-- ===== src/Examples/Crons.antt =====
-- Cron texts at concrete inputs.
use hisohiso.Prelude.{arith, ℕ, ◌+◌, ◌*◌, ◌<◌, ◌≤◌, some, [], ◌∷◌, ◌≡◌, refl, map}
use hisohiso.Text.{Text, units}
use hisohiso.Cron.Defs.{parse_cron, compute_next_run_at, ms_per_day}
use hisohiso.Cron.Valid.{IsValid, parse_cron-IsValid}
use hisohiso.Cron.NextRun.{Fires, compute_next_run_at-Fires, compute_next_run_at-least}
use hisohiso.Cron.Days.{day, parse_days, cron, build_cron_from_args, match_time}
use hisohiso.Cron.RoundTrip.{build_cron-parse}
use hisohiso.Examples.Input.{sample_js, sample_cron, sample_spec}

sample_parse : parse_cron sample_js sample_cron ≡ some sample_spec
unfolding parse_cron hisohiso.Text.split_space hisohiso.Text.trim hisohiso.Text.is_space
    hisohiso.Text.text_eq hisohiso.Text.decimal hisohiso.Text.split_on
sample_parse = refl

compute_next_run_at-Fires_example :
    (r : ℕ) × (compute_next_run_at sample_js sample_cron 86400000 ≡ some r)
    × (86400000 < r)
    × (r ≤ 86400000 + 7 * ms_per_day)
    × Fires sample_spec r
compute_next_run_at-Fires_example =
    compute_next_run_at-Fires sample_js sample_cron sample_spec 86400000 sample_parse

-- 1970-01-02 was a Friday.
sample-Fires : Fires sample_spec 120600000
sample-Fires = record { on_time = refl; on_day = refl }

compute_next_run_at-least_example :
    (r : ℕ) × (compute_next_run_at sample_js sample_cron 86400000 ≡ some r) × (r ≤ 120600000)
compute_next_run_at-least_example =
    compute_next_run_at-least sample_js sample_cron sample_spec 86400000 120600000 sample_parse
      sample-Fires (omega arith)

parse_cron-IsValid_example : IsValid sample_spec
parse_cron-IsValid_example = parse_cron-IsValid sample_js sample_cron sample_spec sample_parse

sample_days : parse_days sample_js (units "fri,Mon,1") ≡ some (map day (1 ∷ 5 ∷ []))
unfolding parse_days hisohiso.Text.split_on hisohiso.Text.trim hisohiso.Text.is_space
    hisohiso.Cron.Days.add_part hisohiso.Text.text_eq hisohiso.Cron.Days.sort
sample_days = refl

sample_build :
    build_cron_from_args sample_js (units "fri,Mon,1") (units "09:30") ≡ cron (units "30 9 * * 1,5")
unfolding build_cron_from_args hisohiso.Text.split_on hisohiso.Text.trim hisohiso.Text.is_space
    hisohiso.Cron.Days.add_part hisohiso.Text.text_eq hisohiso.Text.decimal hisohiso.Text.join
    hisohiso.Text.show hisohiso.Cron.Days.sort
sample_build = refl

build_cron-parse_example :
    (hour : ℕ) × (minute : ℕ) × (match_time (units "09:30") ≡ some (hour, minute))
    × (parse_cron sample_js (units "30 9 * * 1,5")
        ≡ some (record { hour = hour; minute = minute; days = 1 ∷ 5 ∷ [] }))
build_cron-parse_example =
    build_cron-parse sample_js (units "fri,Mon,1") (units "09:30") (units "30 9 * * 1,5")
      (1 ∷ 5 ∷ []) sample_build sample_days
