-- ===== src/Cron/Days.antt =====
-- `parseDaysToken` and `buildCronFromArgs` of cli/src/lib/scheduler.ts.
--
-- The table of day names is an object literal, so `part in DOW_NAMES` also holds of the lower-case
-- names that it inherits from `Object.prototype`; what such a name adds to the set is no number.
use hisohiso.Prelude.{
  ℕ, ◌-◌, Bool, false, not, ◌&&◌, ◌||◌, Option, none, some, List, [], ◌∷◌, ◌++◌, map, ltb, leb,
  ◌==◌, if◌then◌else◌, any, filter, length,
}
use hisohiso.Text.{Text, units, text_eq, is_digit, trim, split_on, join, decimal, show}
use hisohiso.Cron.Defs.{Js}

-- A member of the set `out`: a day, or the value of an inherited property, by the text that it
-- prints as.
pub data Entry : Type 0 where
  day : ℕ → Entry
  inherited : Text → Entry

abbrev pub entry_eq : Entry → Entry → Bool
entry_eq (day a) (day b) = a == b
entry_eq (inherited s) (inherited t) = text_eq s t
entry_eq (day a) (inherited t) = false
entry_eq (inherited s) (day b) = false

abbrev pub has_entry : Entry → List Entry → Bool
has_entry e es = any (λ x. entry_eq x e) es

unfoldable pub add_entry : Entry → List Entry → List Entry
add_entry e es = if has_entry e es then es else es ++ (e ∷ [])

unfoldable pub add_days : List ℕ → List Entry → List Entry
unfolding add_entry
add_days [] out = out
add_days (d ∷ ds) out = add_days ds (add_entry (day d) out)

-- `part in DOW_NAMES` with `DOW_NAMES[part]`.
unfoldable pub dow_names : Text → Option Entry
dow_names part =
    if text_eq part (units "sun")
    then some (day 0)
    else if text_eq part (units "mon")
    then some (day 1)
    else if text_eq part (units "tue")
    then some (day 2)
    else if text_eq part (units "wed")
    then some (day 3)
    else if text_eq part (units "thu")
    then some (day 4)
    else if text_eq part (units "fri")
    then some (day 5)
    else if text_eq part (units "sat")
    then some (day 6)
    else if text_eq part (units "constructor")
    then some (inherited (units "function Object() { [native code] }"))
    else if text_eq part (units "__proto__")
    then some (inherited (units "[object Object]"))
    else none

-- `/^[0-6]$/`
unfoldable pub day_digit : Text → Option ℕ
day_digit (c ∷ []) = if leb 48 c && leb c 54 then some (c - 48) else none
day_digit t = none

abbrev pub or_name : Option ℕ → Option Entry → List Entry → Option (List Entry)
or_name (some d) name out = some (add_entry (day d) out)
or_name none (some e) out = some (add_entry e out)
or_name none none out = none

-- One turn of the loop over the parts; `none` is `return null`.
unfoldable pub add_part : Text → List Entry → Option (List Entry)
unfolding add_days dow_names day_digit
add_part part out =
    if text_eq part (units "weekdays")
    then some (add_days (1 ∷ 2 ∷ 3 ∷ 4 ∷ 5 ∷ []) out)
    else if text_eq part (units "daily")
        || text_eq part (units "everyday")
        || text_eq part (units "*")
    then some (add_days (0 ∷ 1 ∷ 2 ∷ 3 ∷ 4 ∷ 5 ∷ 6 ∷ []) out)
    else or_name (day_digit part) (dow_names part) out

unfoldable pub add_parts : List Text → List Entry → Option (List Entry)
add_parts [] out = some out
add_parts (part ∷ parts) out = elim (add_part part out) [
  | none ↦ none
  | some out' ↦ add_parts parts out'
]

-- `a - b > 0`; a difference with no number in it is NaN, which sorting reads as 0.
abbrev pub after : Entry → Entry → Bool
after (day a) (day b) = ltb b a
after (day a) (inherited t) = false
after (inherited s) b = false

unfoldable pub insert_entry : Entry → List Entry → List Entry
insert_entry e [] = e ∷ []
insert_entry e (x ∷ xs) = let rest = insert_entry e xs in if after x e then e ∷ x ∷ xs else x ∷ rest

-- `[...out].sort((a, b) => a - b)`: a stable sort. With inherited members the comparison is
-- inconsistent and the order is left open by ECMAScript; insertion is one such order.
unfoldable pub sort_from : List Entry → List Entry → List Entry
unfolding insert_entry
sort_from done [] = done
sort_from done (e ∷ es) = sort_from (insert_entry e done) es

unfoldable pub sort : List Entry → List Entry
unfolding sort_from
sort es = sort_from [] es

abbrev pub show_entry : Entry → Text
show_entry (day d) = show d
show_entry (inherited t) = t

-- The parts that the loop runs over.
unfoldable pub parts_of : Js → Text → List Text
parts_of js tok = filter (λ s. not (length s == 0)) (map (λ s. js.lower (trim s)) (split_on 44 tok))

abbrev pub sort_nonempty : Option (List Entry) → Option (List Entry)
sort_nonempty none = none
sort_nonempty (some out) = if length out == 0 then none else some (sort out)

-- The days that the token stands for, in the order that is printed.
unfoldable pub parse_days : Js → Text → Option (List Entry)
unfolding add_parts parts_of
parse_days js tok = sort_nonempty (add_parts (parts_of js tok) [])

abbrev pub print_days : Option (List Entry) → Option Text
print_days none = none
print_days (some es) = some (join 44 (map show_entry es))

unfoldable pub parse_days_token : Js → Text → Option Text
unfolding parse_days
parse_days_token js tok = print_days (parse_days js tok)

-- `/^(\d{1,2})(?::(\d{1,2}))?$/`, with `Number` of its groups; no second group is minute 0.
unfoldable pub match_time : Text → Option (ℕ × ℕ)
match_time (a ∷ []) = if is_digit a then some (decimal (a ∷ []), 0) else none
match_time (a ∷ b ∷ []) = if is_digit a && is_digit b then some (decimal (a ∷ b ∷ []), 0) else none
match_time (a ∷ b ∷ c ∷ []) =
    if is_digit a && b == 58 && is_digit c then some (decimal (a ∷ []), decimal (c ∷ [])) else none
match_time (a ∷ b ∷ c ∷ d ∷ []) =
    if is_digit a && b == 58 && is_digit c && is_digit d
    then some (decimal (a ∷ []), decimal (c ∷ d ∷ []))
    else if is_digit a && is_digit b && c == 58 && is_digit d
    then some (decimal (a ∷ b ∷ []), decimal (d ∷ []))
    else none
match_time (a ∷ b ∷ c ∷ d ∷ e ∷ []) =
    if is_digit a && is_digit b && c == 58 && is_digit d && is_digit e
    then some (decimal (a ∷ b ∷ []), decimal (d ∷ e ∷ []))
    else none
match_time t = none

pub data Built : Type 0 where
  cron : Text → Built
  bad_days bad_time : Built

-- `${minute} ${hour} * * ${dow}`
unfoldable pub cron_text : ℕ → ℕ → Text → Text
cron_text minute hour dow = join 32 (show minute ∷ show hour ∷ units "*" ∷ units "*" ∷ dow ∷ [])

abbrev pub build : Option Text → Option (ℕ × ℕ) → Built
build none time = bad_days
build (some dow) none = bad_time
build (some dow) (some (hour, minute)) =
    if ltb 23 hour || ltb 59 minute then bad_time else cron (cron_text minute hour dow)

unfoldable pub build_cron_from_args : Js → Text → Text → Built
unfolding parse_days_token match_time cron_text
build_cron_from_args js days time = build (parse_days_token js days) (match_time time)
