-- ===== src/Cron/Sorted.antt =====
-- cli/src/lib/scheduler.ts: the days that `parseDaysToken` collects.
use hisohiso.Prelude.{
  suc, ◌+◌, ◌≢◌, length, ℕ, ◌≤◌, ◌≡◌, refl, true, false, ◌||◌, Option, none, some, List, [], ◌∷◌,
  ◌++◌, All, arith, Bool-cases, Option-cases, inl, inr,
}
use hisohiso.Text.{Text, text_eq, units}
use hisohiso.Text.Laws.{text_eq_iff, All-append}
use hisohiso.Cron.Defs.{Js}
use hisohiso.Cron.Days.{
  Entry, day, inherited, entry_eq, has_entry, add_entry, add_days, add_part, add_parts, after,
  insert_entry, sort_from, sort, parse_days, dow_names, day_digit, parts_of, or_name,
}

abbrev pub Distinct : List Entry → Type 0
Distinct [] = Unit
Distinct (e ∷ es) = (has_entry e es ≡ false) × Distinct es

abbrev pub InOrder : List Entry → Type 0
InOrder [] = Unit
InOrder (e ∷ []) = Unit
InOrder (e ∷ f ∷ es) = (after e f ≡ false) × InOrder (f ∷ es)

abbrev pub IsSmall : Entry → Type 0
IsSmall (day d) = d ≤ 6
IsSmall (inherited t) = Unit

entry_eq_symm : (e f : Entry) → entry_eq e f ≡ entry_eq f e
entry_eq_symm (day a) (day b) = ground arith
entry_eq_symm (inherited s) (inherited t) = ground (arith, text_eq_iff s t, text_eq_iff t s)
entry_eq_symm (day a) (inherited t) = refl
entry_eq_symm (inherited s) (day b) = refl

has_entry-append :
    (e : Entry) (es fs : List Entry) → has_entry e (es ++ fs) ≡ (has_entry e es || has_entry e fs)
has_entry-append e [] fs = refl
has_entry-append e (x ∷ es) fs = ground (arith, has_entry-append e es fs)

Distinct-snoc :
    (e : Entry) (es : List Entry) → has_entry e es ≡ false → Distinct es → Distinct (es ++ (e ∷ []))
Distinct-snoc e [] h d = (refl, tt)
Distinct-snoc e (x ∷ es) h d = (
  ground (arith, has_entry-append x es (e ∷ []), entry_eq_symm e x),
  Distinct-snoc e es (ground arith) d.1,
)

has_entry-insert_entry :
    (f e : Entry) (es : List Entry)
    → has_entry f (insert_entry e es) ≡ (entry_eq e f || has_entry f es)
unfolding insert_entry
has_entry-insert_entry f e [] = refl
has_entry-insert_entry f e (x ∷ es) = ground (arith, has_entry-insert_entry f e es)

insert_entry-Distinct :
    (e : Entry) (es : List Entry)
    → has_entry e es ≡ false
    → Distinct es
    → Distinct (insert_entry e es)
unfolding insert_entry
insert_entry-Distinct e [] h d = (refl, tt)
insert_entry-Distinct e (x ∷ es) h d = elim (Bool-cases (after x e)) [
  | inl here ↦ rw here (h, d)
  | inr later ↦ rw later (
    ground (arith, has_entry-insert_entry x e es, entry_eq_symm e x),
    insert_entry-Distinct e es (ground arith) d.1,
  )
]

-- Adding an entry at the head of those still to come keeps the others apart from what is done.
apart-insert_entry :
    (e : Entry) (es done : List Entry)
    → has_entry e es ≡ false
    → All (λ f. has_entry f done ≡ false) es
    → All (λ f. has_entry f (insert_entry e done) ≡ false) es
apart-insert_entry e [] done h a = tt
apart-insert_entry e (f ∷ es) done h a = (
  ground (arith, has_entry-insert_entry f e done, entry_eq_symm e f),
  apart-insert_entry e es done (ground arith) a.1,
)

sort_from-Distinct :
    (done es : List Entry)
    → Distinct done
    → Distinct es
    → All (λ f. has_entry f done ≡ false) es
    → Distinct (sort_from done es)
unfolding sort_from
sort_from-Distinct done [] d k a = d
sort_from-Distinct done (e ∷ es) d k a =
    sort_from-Distinct (insert_entry e done) es (insert_entry-Distinct e done a.0 d) k.1
      (apart-insert_entry e es done k.0 a.1)

after_asymm : (e f : Entry) → after e f ≡ true → after f e ≡ false
after_asymm (day a) (day b) h = ground arith
after_asymm (day a) (inherited t) h = refl
after_asymm (inherited s) f h = absurd (cc)

insert_entry-InOrder : (e : Entry) (es : List Entry) → InOrder es → InOrder (insert_entry e es)
unfolding insert_entry
insert_entry-InOrder e [] h = tt
insert_entry-InOrder e (x ∷ []) h = elim (Bool-cases (after x e)) [
  | inl here ↦ rw here (after_asymm x e here, tt)
  | inr later ↦ rw later (later, tt)
]
insert_entry-InOrder e (x ∷ y ∷ es) h = elim (Bool-cases (after x e)) [
  | inl here ↦ rw here (after_asymm x e here, h)
  | inr later ↦ elim (Bool-cases (after y e)) [
    | inl here ↦ rw (later, here) (later, (after_asymm y e here, h.1))
    | inr past ↦ rw (later, past) (h.0, rw past at (insert_entry-InOrder e (y ∷ es) h.1))
  ]
]

sort_from-InOrder : (done es : List Entry) → InOrder done → InOrder (sort_from done es)
unfolding sort_from
sort_from-InOrder done [] h = h
sort_from-InOrder done (e ∷ es) h =
    sort_from-InOrder (insert_entry e done) es (insert_entry-InOrder e done h)

insert_entry-All :
    (P : Entry → Type 0) (e : Entry) (es : List Entry) → P e → All P es → All P (insert_entry e es)
unfolding insert_entry
insert_entry-All P e [] p h = (p, tt)
insert_entry-All P e (x ∷ es) p h = elim (Bool-cases (after x e)) [
  | inl here ↦ rw here (p, h)
  | inr later ↦ rw later (h.0, insert_entry-All P e es p h.1)
]

sort_from-All :
    (P : Entry → Type 0) (done es : List Entry) → All P done → All P es → All P (sort_from done es)
unfolding sort_from
sort_from-All P done [] h k = h
sort_from-All P done (e ∷ es) h k =
    sort_from-All P (insert_entry e done) es (insert_entry-All P e done k.0 h) k.1

-- What the loop keeps of the set.
abbrev pub Good : List Entry → Type 0
Good es = Distinct es × All IsSmall es

add_entry-Good : (e : Entry) (es : List Entry) → IsSmall e → Good es → Good (add_entry e es)
unfolding add_entry
add_entry-Good e es s g = elim (Bool-cases (has_entry e es)) [
  | inl old ↦ rw old g
  | inr new ↦ rw new (Distinct-snoc e es new g.0, All-append _ es (e ∷ []) g.1 (s, tt))
]

add_days-Good :
    (ds : List ℕ) (es : List Entry) → All (λ d. d ≤ 6) ds → Good es → Good (add_days ds es)
unfolding add_days
add_days-Good [] es s g = g
add_days-Good (d ∷ ds) es s g =
    add_days-Good ds (add_entry (day d) es) s.1 (add_entry-Good (day d) es s.0 g)

day_digit-small : (t : Text) (d : ℕ) → day_digit t ≡ some d → d ≤ 6
unfolding day_digit
day_digit-small [] d h = absurd (cc)
day_digit-small (c ∷ []) d h = ground arith
day_digit-small (c ∷ e ∷ t) d h = absurd (cc)

dow_names-IsSmall : (t : Text) (e : Entry) → dow_names t ≡ some e → IsSmall e
unfolding dow_names
dow_names-IsSmall t (day d) h = ground arith
dow_names-IsSmall t (inherited s) h = tt

-- Which of its branches a returned set comes from.
some-eq {ℓ} : {A : Type ℓ} (P : A → Type 0) (a b : A) → some a ≡ some b → P a → P b
some-eq P a b e p = let e' : a ≡ b = cc in rw (← e') p

or_name-Good :
    (digit : Option ℕ) (name : Option Entry) (out out' : List Entry)
    → ((d : ℕ) → digit ≡ some d → d ≤ 6)
    → ((e : Entry) → name ≡ some e → IsSmall e)
    → Good out
    → or_name digit name out ≡ some out'
    → Good out'
or_name-Good (some d) name out out' small s g h =
    some-eq Good _ out' h (add_entry-Good (day d) out (small d refl) g)
or_name-Good none (some e) out out' small s g h =
    some-eq Good _ out' h (add_entry-Good e out (s e refl) g)
or_name-Good none none out out' small s g h = absurd (cc)

add_part-Good :
    (part : Text) (out out' : List Entry) → Good out → add_part part out ≡ some out' → Good out'
unfolding add_part
add_part-Good part out out' g h = elim (Bool-cases (text_eq part (units "weekdays"))) [
  | inl weekdays ↦
      some-eq Good _ out' (rw weekdays at h)
        (add_days-Good (1 ∷ 2 ∷ 3 ∷ 4 ∷ 5 ∷ []) out (omega arith) g)
  | inr other ↦
      elim (Bool-cases (
        text_eq part (units "daily")
        || text_eq part (units "everyday")
        || text_eq part (units "*"))) [
          | inl daily ↦
              some-eq Good _ out' (rw (other, daily) at h)
                (add_days-Good (0 ∷ 1 ∷ 2 ∷ 3 ∷ 4 ∷ 5 ∷ 6 ∷ []) out (omega arith) g)
          | inr single ↦
              or_name-Good (day_digit part) (dow_names part) out out' (day_digit-small part)
                (dow_names-IsSmall part) g (rw (other, single) at h)
        ]
]

add_parts-Good :
    (parts : List Text) (out out' : List Entry)
    → Good out
    → add_parts parts out ≡ some out'
    → Good out'
unfolding add_parts
add_parts-Good [] out out' g h = let e : out ≡ out' = cc in rw (← e) g
add_parts-Good (part ∷ parts) out out' g h = elim (Option-cases (add_part part out)) [
  | inl bad ↦ absurd (ground (arith, bad))
  | inr (next, good) ↦
      add_parts-Good parts next out' (add_part-Good part out next g good) (ground (arith, good))
]

sort-Good : (es : List Entry) → Good es → Good (sort es) × InOrder (sort es)
unfolding sort
sort-Good es g = (
  (sort_from-Distinct [] es tt g.0 (apart es), sort_from-All _ [] es tt g.1),
  sort_from-InOrder [] es tt,
)
  where
    apart : (es : List Entry) → All (λ f. has_entry f [] ≡ false) es
    apart [] = tt
    apart (e ∷ es) = (refl, apart es)

-- What the token parser returns has no repetition, no member of it sorts after its successor, and
-- every weekday number in it is at most 6.
pub parse_days-Good :
    (js : Js) (tok : Text) (es : List Entry) → parse_days js tok ≡ some es → Good es × InOrder es
unfolding parse_days
parse_days-Good js tok es h = elim (Option-cases (add_parts (parts_of js tok) [])) [
  | inl bad ↦ absurd (ground (arith, bad))
  | inr (out, good) ↦
      let e : sort out ≡ es = ground (arith, good) in
      rw (← e) (sort-Good out (add_parts-Good (parts_of js tok) [] out (tt, tt) good))
]

length-insert_entry : (e : Entry) (es : List Entry) → length (insert_entry e es) ≡ suc (length es)
unfolding insert_entry
length-insert_entry e [] = refl
length-insert_entry e (x ∷ es) = ground (arith, length-insert_entry e es)

length-sort_from : (done es : List Entry) → length (sort_from done es) ≡ length done + length es
unfolding sort_from
length-sort_from done [] = omega arith
length-sort_from done (e ∷ es) =
    omega (arith, length-sort_from (insert_entry e done) es, length-insert_entry e done)

pub parse_days-ne_nil : (js : Js) (tok : Text) → parse_days js tok ≢ some []
unfolding parse_days sort
parse_days-ne_nil js tok h = elim (Option-cases (add_parts (parts_of js tok) [])) [
  | inl bad ↦ absurd (ground (arith, bad))
  | inr (out, good) ↦ ground (arith, good, length-sort_from [] out)
]
