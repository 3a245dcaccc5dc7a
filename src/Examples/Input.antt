-- ===== src/Examples/Input.antt =====
-- A concrete reading of numbers, and the inputs of the examples.
use hisohiso.Prelude.{
  ℕ, true, Option, none, some, [], ◌∷◌, ◌≡◌, ◌≢◌, refl, if◌then◌else◌, all, map, leb, ◌+◌, ◌&&◌,
}
use hisohiso.Text.{Text, units, is_digit, decimal}
use hisohiso.Text.Laws.{Units}
use hisohiso.Cron.Defs.{Js, Spec}
use hisohiso.Scheduler.Defs.{Schedule, Input}

-- Reads digits, and nothing as 0.
abbrev pub digits_number : Text → Option ℕ
digits_number [] = some 0
digits_number (c ∷ cs) = if all is_digit (c ∷ cs) then some (decimal (c ∷ cs)) else none

all-Units : (t : Text) → Units is_digit t → all is_digit t ≡ true
all-Units [] h = refl
all-Units (c ∷ t) h = rw h.0 (all-Units t h.1)

pub digits_number-digits :
    (t : Text) → t ≢ [] → Units is_digit t → digits_number t ≡ some (decimal t)
digits_number-digits [] ne h = absurd (ne refl)
digits_number-digits (c ∷ cs) ne h = rw (all-Units (c ∷ cs) h) refl

abbrev pub ascii_lower : Text → Text
ascii_lower t = map (λ c. if leb 65 c && leb c 90 then c + 32 else c) t

abbrev pub sample_js : Js
sample_js = record {
  number = digits_number;
  lower = ascii_lower;
  number_digits = digits_number-digits;
  number_empty = refl;
}

abbrev pub sample_cron : Text
sample_cron = units "30 9 * * 1,5"

abbrev pub sample_spec : Spec
sample_spec = record { hour = 9; minute = 30; days = 1 ∷ 5 ∷ [] }

abbrev pub sample_schedule : Schedule
sample_schedule = record {
  id = units "sch_a";
  name = units "digest";
  cron = sample_cron;
  agent = units "claude";
  prompt = units "summarize";
  enabled = true;
  timeout_ms = 600000;
  notify_on_error = true;
  next_run_at = none;
  last_run_at = none;
  last_status = none;
}

abbrev pub sample_input : Input
sample_input = record {
  cron = sample_cron;
  agent = units "claude";
  prompt = units "summarize";
  name = none;
  timeout_ms = none;
  notify_on_error = none;
}
