-- ===== src/Cron/RoundTrip.antt =====
-- cli/src/lib/scheduler.ts: `parseCron` after `buildCronFromArgs`.
use hisohiso.Prelude.{
  ℕ, ◌≤◌, ◌≡◌, ◌≢◌, refl, sym, ◌∙◌, ap, false, ◌||◌, Option, none, some, List, [], ◌∷◌, ◌++◌, map,
  ltb, ◌==◌, All, arith, Bool-cases, inl, inr,
}
use mathlib.Core.List.{append-nil, append_assoc}
use hisohiso.Text.{is_space, Text, units, show, join, is_digit}
use hisohiso.Text.Laws.{
  show-digits, show-IsWord, decimal-show, split_on-join, split_space-trim-join, Without, IsWord,
  Units, All-append, text_eq_refl,
}
use hisohiso.Cron.Defs.{Js, has, add, parse_dow, parse_cron}
use hisohiso.Cron.Days.{
  day, has_entry, parse_days, parse_days_token, match_time, cron_text, cron, build,
  build_cron_from_args, show_entry,
}
use hisohiso.Cron.Sorted.{Distinct, Good, IsSmall, parse_days-Good, parse_days-ne_nil}

module _ (js : Js) where
  number-show : (n : ℕ) → js.number (show n) ≡ some n
  number-show n =
      js.number_digits (show n) (ne (show n) (show-IsWord n)) (show-digits n)
      ∙ ap (λ k. some k) (decimal-show n)
    where
      ne : (t : Text) → IsWord t → t ≢ []
      ne [] w = absurd w
      ne (c ∷ t) w = λ e. cc

  has-append : (m : ℕ) (ns ms : List ℕ) → has m (ns ++ ms) ≡ (has m ns || has m ms)
  has-append m [] ms = refl
  has-append m (n ∷ ns) ms = ground (arith, has-append m ns ms)

  apart-snoc :
      (n : ℕ) (ns days : List ℕ)
      → has_entry (day n) (map day ns) ≡ false
      → All (λ m. has m days ≡ false) ns
      → All (λ m. has m (days ++ (n ∷ [])) ≡ false) ns
  apart-snoc n [] days h a = tt
  apart-snoc n (m ∷ ns) days h a =
      (ground (arith, has-append m days (n ∷ [])), apart-snoc n ns days (ground arith) a.1)

  -- Reading the days one by one adds each to the set.
  parse_dow-show :
      (ns days : List ℕ)
      → Distinct (map day ns)
      → All IsSmall (map day ns)
      → All (λ n. has n days ≡ false) ns
      → parse_dow js (map show ns) days ≡ some (days ++ ns)
  unfolding parse_dow add
  parse_dow-show [] days d s apart = ap (λ l. some l) (sym (append-nil days))
  parse_dow-show (n ∷ ns) days d s apart =
      let small : ltb 6 n ≡ false = ground (arith, s.0) in
      rw (number-show n, small, apart.0)
        (parse_dow-show ns (days ++ (n ∷ [])) d.1 s.1 (apart-snoc n ns days d.0 apart.1)
          ∙ ap (λ l. some l) (append_assoc days (n ∷ []) ns))

  none_apart : (ns : List ℕ) → All (λ n. has n [] ≡ false) ns
  none_apart [] = tt
  none_apart (n ∷ ns) = (refl, none_apart ns)

digits-no_comma : (t : Text) → Units is_digit t → Without (λ c. c == 44) t
digits-no_comma [] h = tt
digits-no_comma (c ∷ t) h = (ground arith, digits-no_comma t h.1)

shows-no_comma : (ns : List ℕ) → All (Without (λ c. c == 44)) (map show ns)
shows-no_comma [] = tt
shows-no_comma (n ∷ ns) = (digits-no_comma (show n) (show-digits n), shows-no_comma ns)

Without-of_IsWord : (t : Text) → IsWord t → Without is_space t
Without-of_IsWord [] w = absurd w
Without-of_IsWord (c ∷ t) w = w

IsWord-append : (s t : Text) → IsWord s → Without is_space t → IsWord (s ++ t)
IsWord-append [] t w h = absurd w
IsWord-append (c ∷ s) t w h = (w.0, All-append _ s t w.1 h)

-- The printed list of days is one word.
join-IsWord : (n : ℕ) (ns : List ℕ) → IsWord (join 44 (map show (n ∷ ns)))
unfolding join is_space
join-IsWord n [] = show-IsWord n
join-IsWord n (m ∷ ns) =
    IsWord-append (show n) _ (show-IsWord n)
      (refl, Without-of_IsWord (join 44 (map show (m ∷ ns))) (join-IsWord m ns))

star-IsWord : IsWord (units "*")
unfolding is_space
star-IsWord = (refl, tt)

show_entries : (ns : List ℕ) → map show_entry (map day ns) ≡ map show ns
show_entries [] = refl
show_entries (n ∷ ns) = ap (λ l. show n ∷ l) (show_entries ns)

module _ (js : Js) (minute hour n : ℕ) (ns : List ℕ) where
  -- A cron text printed from fields in range reads back as those fields.
  parse_cron-cron_text :
      minute ≤ 59
      → hour ≤ 23
      → Good (map day (n ∷ ns))
      → parse_cron js (cron_text minute hour (join 44 (map show (n ∷ ns))))
        ≡ some (record { hour = hour; minute = minute; days = n ∷ ns })
  unfolding parse_cron cron_text
  parse_cron-cron_text mi hr g =
      rw
        (
          split_space-trim-join (show minute)
              (show hour ∷ units "*" ∷ units "*" ∷ join 44 (map show (n ∷ ns)) ∷ [])
              (
                show-IsWord minute,
                (show-IsWord hour, (star-IsWord, (star-IsWord, (join-IsWord n ns, tt)))),
              ),
          number-show js minute,
          number-show js hour,
          text_eq_refl (units "*"),
          split_on-join 44 (show n) (map show ns) (shows-no_comma (n ∷ ns)),
          parse_dow-show js (n ∷ ns) [] g.0 g.1 (none_apart js (n ∷ ns)),
        )
        (ground arith)

cron-injective : (s t : Text) → cron s ≡ cron t → s ≡ t
cron-injective s t e = cc

built :
    (dow : Text) (time : Option (ℕ × ℕ)) (c : Text)
    → build (some dow) time ≡ cron c
    → (hour : ℕ) × (minute : ℕ) × (time ≡ some (hour, minute))
      × (hour ≤ 23)
      × (minute ≤ 59)
      × (cron_text minute hour dow ≡ c)
built dow none c e = absurd (cc)
built dow (some (hour, minute)) c e = elim (Bool-cases (ltb 23 hour || ltb 59 minute)) [
  | inl bad ↦ absurd (cc (rw bad at e))
  | inr fine ↦
      let e' : cron (cron_text minute hour dow) ≡ cron c = rw fine at e in
      (hour, minute, refl, ground arith, ground arith, cron-injective _ c e')
]

-- The cron text that `buildCronFromArgs` returns for a days token of weekday numbers and names is
-- accepted by `parseCron`, which reads from it the hour and the minute of the time token, both in
-- range, and the days of the days token.
pub build_cron-parse :
    (js : Js) (days time c : Text) (ns : List ℕ)
    → build_cron_from_args js days time ≡ cron c
    → parse_days js days ≡ some (map day ns)
    → (hour : ℕ) × (minute : ℕ) × (match_time time ≡ some (hour, minute))
      × (parse_cron js c ≡ some (record { hour = hour; minute = minute; days = ns }))
unfolding build_cron_from_args
build_cron-parse js days time c [] e d = absurd (parse_days-ne_nil js days d)
build_cron-parse js days time c (n ∷ ns) e d =
    let good = (parse_days-Good js days (map day (n ∷ ns)) d).0 in
    let dow : parse_days_token js days ≡ some (join 44 (map show (n ∷ ns))) =
      unfold parse_days_token in rw d (ap (λ l. some (join 44 l)) (show_entries (n ∷ ns))) in
    let e' : build (some (join 44 (map show (n ∷ ns)))) (match_time time) ≡ cron c = rw (← dow) e in
    let (hour, minute, at, hr, mi, text) = built _ (match_time time) c e' in
    (hour, minute, at, rw (← text) (parse_cron-cron_text js minute hour n ns mi hr good))
