-- ===== src/Cron/Valid.antt =====
-- cli/src/lib/scheduler.ts: the specs that `parseCron` accepts.
use hisohiso.Prelude.{
  ℕ, ◌≤◌, ◌≡◌, ◌≢◌, ◌||◌, not, inl, inr, Option, none, some, List, [], ◌∷◌, ltb, arith, All,
  Bool-cases, Option-cases,
}
use hisohiso.Text.{units, Text, split_on, split_space, trim, text_eq}
use hisohiso.Text.Laws.{All-append}
use hisohiso.Cron.Defs.{Js, Spec, has, parse_cron, parse_fields, check_fields, parse_dow, add}

-- What `parseCron` accepts.
pub record IsValid (spec : Spec) : Type 0 where
  pub hour_ok : spec.hour ≤ 23
  pub minute_ok : spec.minute ≤ 59
  pub days_ok : All (λ d. d ≤ 6) spec.days
  pub some_day : spec.days ≢ []

add-small : (d : ℕ) (days : List ℕ) → d ≤ 6 → All (λ e. e ≤ 6) days → All (λ e. e ≤ 6) (add d days)
unfolding add
add-small d days small h = elim (Bool-cases (has d days)) [
  | inl old ↦ rw old h
  | inr new ↦ rw new (All-append _ days (d ∷ []) h (small, tt))
]

module _ (js : Js) where
  parse_dow-small :
      (toks : List Text) (days out : List ℕ)
      → All (λ d. d ≤ 6) days
      → parse_dow js toks days ≡ some out
      → All (λ d. d ≤ 6) out
  unfolding parse_dow
  parse_dow-small [] days out h e = let e' : days ≡ out = cc in rw (← e') h
  parse_dow-small (tok ∷ toks) days out h e = elim (Option-cases (js.number tok)) [
    | inl nan ↦ absurd (cc (rw (nan, parse_dow) at e))
    | inr (d, num) ↦ elim (Bool-cases (ltb 6 d)) [
      | inl big ↦ absurd (ground (arith, num, big))
      | inr small ↦
          parse_dow-small toks (add d days) out (add-small d days (ground arith) h)
            (ground (arith, num, small))
    ]
  ]

  -- `parseCron` accepts nothing but specs that can fire.
  check_fields-IsValid :
      (m h : Option ℕ) (dow : Text) (spec : Spec)
      → check_fields js m h dow ≡ some spec
      → IsValid spec
  unfolding check_fields
  check_fields-IsValid none h dow spec e = absurd (cc)
  check_fields-IsValid (some m) none dow spec e = absurd (cc)
  check_fields-IsValid (some m) (some h) dow spec e =
      elim (Option-cases (parse_dow js (split_on 44 dow) [])) [
        | inl bad ↦ absurd (ground (arith, bad))
        | inr (days, good) ↦
            let small : All (λ d. d ≤ 6) days = parse_dow-small (split_on 44 dow) [] days tt good in
            record {
              hour_ok = ground (arith, good);
              minute_ok = ground (arith, good);
              days_ok = let e' : days ≡ spec.days = ground (arith, good) in rw (← e') small;
              some_day = λ nil. ground (arith, good);
            }
      ]

  parse_fields-IsValid :
      (parts : List Text) (spec : Spec) → parse_fields js parts ≡ some spec → IsValid spec
  unfolding parse_fields
  parse_fields-IsValid (m ∷ h ∷ dom ∷ mon ∷ dow ∷ []) spec e =
      elim (Bool-cases (not (text_eq dom (units "*")) || not (text_eq mon (units "*")))) [
        | inl other ↦ absurd (cc (rw other at e))
        | inr stars ↦ check_fields-IsValid (js.number m) (js.number h) dow spec (rw stars at e)
      ]
  parse_fields-IsValid parts spec e = absurd (cc)

  -- `parseCron` accepts nothing but specs with an hour below 24, a minute below 60 and a nonempty
  -- set of weekdays from 0 to 6.
  pub parse_cron-IsValid :
      (cron : Text) (spec : Spec) → parse_cron js cron ≡ some spec → IsValid spec
  unfolding parse_cron
  parse_cron-IsValid cron spec e = parse_fields-IsValid (split_space (trim cron)) spec e
