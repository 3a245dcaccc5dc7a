-- ===== src/Text/Laws.antt =====
-- Laws of the string methods.
use hisohiso.Prelude.{
  ℕ, zero, suc, ◌+◌, ◌-◌, ◌*◌, ◌/◌, ◌%◌, ◌<◌, ◌≡◌, refl, ◌↔◌, ◌≢◌, ap, ◌∙◌, Bool, true, false, List,
  [], ◌∷◌, ◌++◌, arith, ltb, ◌==◌, All, Bool-cases, inl, inr,
}
use mathlib.Core.List.{reverse, reverse-append, reverse-reverse}
use hisohiso.Text.Defs.{
  starts_in_space, digit_unit, Text, text_eq, is_space, is_digit, decimal, decimal_from, show,
  show_fuel, split_on, split_first, join, split_space, words_first, trim, strip_start,
}

pub text_eq_refl : (t : Text) → text_eq t t ≡ true
unfolding text_eq
text_eq_refl [] = refl
text_eq_refl (c ∷ cs) = ground (arith, text_eq_refl cs)

pub eq_of_text_eq : (s t : Text) → text_eq s t ≡ true → s ≡ t
unfolding text_eq
eq_of_text_eq [] [] h = refl
eq_of_text_eq [] (d ∷ t) h = cc
eq_of_text_eq (c ∷ s) [] h = cc
eq_of_text_eq (c ∷ s) (d ∷ t) h = ground (arith, eq_of_text_eq s t)

pub text_eq_iff : (s t : Text) → (text_eq s t ≡ true) ↔ (s ≡ t)
text_eq_iff s t = (eq_of_text_eq s t, λ e. rw e (text_eq_refl t))

decimal_from-append :
    (n c : ℕ) (t : Text) → decimal_from n (t ++ (c ∷ [])) ≡ decimal_from n t * 10 + (c - 48)
unfolding decimal_from
decimal_from-append n c [] = refl
decimal_from-append n c (d ∷ t) = decimal_from-append (n * 10 + (d - 48)) c t

decimal-show_fuel : (f n : ℕ) → n < f → decimal (show_fuel f 10 n) ≡ n
unfolding decimal show_fuel
decimal-show_fuel zero n h = absurd (omega arith)
decimal-show_fuel (suc f) n h = elim (Bool-cases (ltb n 10)) [
  | inl small ↦ rw small (ground arith)
  | inr big ↦ rw big (
      rw (decimal_from-append 0 (digit_unit (n % 10)) (show_fuel f 10 (n / 10)))
        (ground (arith, decimal-show_fuel f (n / 10) (ground arith))))
]

-- Reading back what was printed.
pub decimal-show : (n : ℕ) → decimal (show n) ≡ n
unfolding show
decimal-show n = decimal-show_fuel (suc n) n (omega arith)

-- Units with a property, and none without: the predicates by which texts are split.
abbrev pub Units : (ℕ → Bool) → Text → Type 0
Units p = All (λ c. p c ≡ true)

abbrev pub Without : (ℕ → Bool) → Text → Type 0
Without p = All (λ c. p c ≡ false)

pub All-append {ℓ κ} :
    {A : Type ℓ} (P : A → Type κ) (xs ys : List A) → All P xs → All P ys → All P (xs ++ ys)
All-append P [] ys h k = k
All-append P (x ∷ xs) ys h k = (h.0, All-append P xs ys h.1 k)

-- A nonempty text without white space.
abbrev pub IsWord : Text → Type 0
IsWord [] = ⊥
IsWord (c ∷ cs) = (is_space c ≡ false) × Without is_space cs

digit-ne-space : (c : ℕ) → is_digit c ≡ true → is_space c ≡ false
unfolding is_space
digit-ne-space c h = ground arith

show_fuel-digits : (f n : ℕ) → Units is_digit (show_fuel f 10 n)
unfolding show_fuel
show_fuel-digits zero n = tt
show_fuel-digits (suc f) n = elim (Bool-cases (ltb n 10)) [
  | inl small ↦ rw small (ground arith)
  | inr big ↦
      rw big (All-append _ (show_fuel f 10 (n / 10)) _ (show_fuel-digits f (n / 10)) (ground arith))
]

pub show-digits : (n : ℕ) → Units is_digit (show n)
unfolding show
show-digits n = show_fuel-digits (suc n) n

pub digits-Without : (t : Text) → Units is_digit t → Without is_space t
digits-Without [] h = tt
digits-Without (c ∷ t) h = (digit-ne-space c h.0, digits-Without t h.1)

append-ne_nil : (t : Text) (c : ℕ) → t ++ (c ∷ []) ≢ []
append-ne_nil [] c e = cc
append-ne_nil (d ∷ t) c e = cc

show_fuel-ne_nil : (f n : ℕ) → show_fuel (suc f) 10 n ≢ []
unfolding show_fuel
show_fuel-ne_nil f n = elim (Bool-cases (ltb n 10)) [
  | inl small ↦ rw small (λ e. cc)
  | inr big ↦ rw big (append-ne_nil (show_fuel f 10 (n / 10)) _)
]

IsWord-of : (t : Text) → t ≢ [] → Without is_space t → IsWord t
IsWord-of [] ne h = absurd (ne refl)
IsWord-of (c ∷ t) ne h = h

pub show-IsWord : (n : ℕ) → IsWord (show n)
unfolding show
show-IsWord n = IsWord-of (show n) (show_fuel-ne_nil n n) (digits-Without (show n) (show-digits n))

-- A separator that stands in no piece: splitting what was joined gives the pieces back.
split_first-append :
    (sep : ℕ) (t u : Text)
    → Without (λ c. c == sep) t
    → split_first sep (t ++ u) ≡ (t ++ (split_first sep u).0, (split_first sep u).1)
unfolding split_first
split_first-append sep [] u h = refl
split_first-append sep (c ∷ t) u h = rw (h.0, split_first-append sep t u h.1)

split_first-all : (sep : ℕ) (t : Text) → Without (λ c. c == sep) t → split_first sep t ≡ (t, [])
unfolding split_first
split_first-all sep [] h = refl
split_first-all sep (c ∷ t) h = rw (h.0, split_first-all sep t h.1)

split_first-sep :
    (sep : ℕ) (t u : Text)
    → Without (λ c. c == sep) t
    → split_first sep (t ++ (sep ∷ u)) ≡ (t, split_on sep u)
unfolding split_first split_on
split_first-sep sep [] u h = ground arith
split_first-sep sep (c ∷ t) u h = rw (h.0, split_first-sep sep t u h.1)

pub split_on-join :
    (sep : ℕ) (t : Text) (ts : List Text)
    → All (Without (λ c. c == sep)) (t ∷ ts)
    → split_on sep (join sep (t ∷ ts)) ≡ t ∷ ts
unfolding split_on join
split_on-join sep t [] h = ap (λ p. p.0 ∷ p.1) (split_first-all sep t h.0)
split_on-join sep t (u ∷ ts) h =
    ap (λ p. p.0 ∷ p.1) (split_first-sep sep t (join sep (u ∷ ts)) h.0)
    ∙ ap (λ l. t ∷ l) (split_on-join sep u ts h.1)

words_first-all : (t : Text) → Without is_space t → words_first t ≡ (t, [])
unfolding words_first
words_first-all [] h = refl
words_first-all (c ∷ t) h = rw (h.0, words_first-all t h.1)

words_first-space :
    (t u : Text)
    → Without is_space t
    → starts_in_space u ≡ false
    → words_first (t ++ (32 ∷ u)) ≡ (t, split_space u)
unfolding words_first split_space is_space
words_first-space [] u h k = ground arith
words_first-space (c ∷ t) u h k = rw (h.0, words_first-space t u h.1 k)

Without-of_IsWord : (t : Text) → IsWord t → Without is_space t
Without-of_IsWord [] h = absurd h
Without-of_IsWord (c ∷ t) h = h

-- Words joined by single spaces split into the same words.
pub split_space-join :
    (t : Text) (ts : List Text)
    → All IsWord (t ∷ ts)
    → (starts_in_space (join 32 (t ∷ ts)) ≡ false) × (split_space (join 32 (t ∷ ts)) ≡ t ∷ ts)
unfolding split_space join
split_space-join [] ts h = absurd h.0
split_space-join (c ∷ t) [] h = (h.0.0, ap (λ p. p.0 ∷ p.1) (words_first-all (c ∷ t) h.0))
split_space-join (c ∷ t) (u ∷ ts) h =
    let (clear, rest) = split_space-join u ts h.1 in
    (
      h.0.0,
      ap (λ p. p.0 ∷ p.1) (words_first-space (c ∷ t) (join 32 (u ∷ ts)) h.0 clear)
          ∙ ap (λ l. (c ∷ t) ∷ l) rest,
    )

-- The last unit of a word, and of words joined by spaces, is no white space.
abbrev EndsClear : Text → Type 0
EndsClear t = (u : Text) × (c : ℕ) × (t ≡ u ++ (c ∷ [])) × (is_space c ≡ false)

IsWord-EndsClear : (t : Text) → IsWord t → EndsClear t
IsWord-EndsClear [] h = absurd h
IsWord-EndsClear (c ∷ []) h = ([], c, refl, h.0)
IsWord-EndsClear (c ∷ d ∷ t) h =
    let (u, e, p, q) = IsWord-EndsClear (d ∷ t) h.1 in (c ∷ u, e, ap (λ l. c ∷ l) p, q)

append-EndsClear : (s t : Text) → EndsClear t → EndsClear (s ++ t)
append-EndsClear [] t h = h
append-EndsClear (c ∷ s) t h =
    let (u, e, p, q) = append-EndsClear s t h in (c ∷ u, e, ap (λ l. c ∷ l) p, q)

join-EndsClear : (t : Text) (ts : List Text) → All IsWord (t ∷ ts) → EndsClear (join 32 (t ∷ ts))
unfolding join
join-EndsClear t [] h = IsWord-EndsClear t h.0
join-EndsClear t (u ∷ ts) h =
    append-EndsClear t _ (append-EndsClear (32 ∷ []) (join 32 (u ∷ ts)) (join-EndsClear u ts h.1))

strip_start_clear : (t : Text) → starts_in_space t ≡ false → strip_start t ≡ t
unfolding strip_start
strip_start_clear [] h = refl
strip_start_clear (c ∷ t) h = rw h

pub trim_clear : (t : Text) → starts_in_space t ≡ false → EndsClear t → trim t ≡ t
unfolding trim
trim_clear t h (u, c, p, q) =
    let back : reverse t ≡ c ∷ reverse u = ap reverse p ∙ reverse-append u (c ∷ []) in
    rw (strip_start_clear t h) (
      rw (ap strip_start back)
        (rw (strip_start_clear (c ∷ reverse u) q) (rw (← back) (reverse-reverse t))))

-- Words joined by single spaces: trimming changes nothing, and splitting gives the words.
pub split_space-trim-join :
    (t : Text) (ts : List Text)
    → All IsWord (t ∷ ts)
    → split_space (trim (join 32 (t ∷ ts))) ≡ t ∷ ts
split_space-trim-join t ts h =
    let (clear, split) = split_space-join t ts h in
    rw (trim_clear (join 32 (t ∷ ts)) clear (join-EndsClear t ts h)) split
