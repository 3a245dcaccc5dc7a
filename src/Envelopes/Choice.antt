-- ===== src/Envelopes/Choice.antt =====
-- cli/src/lib/agent-process.ts: which envelope is the answer.
use mathlib.Core.List.{reverse, reverse-append}
use hisohiso.Prelude.{
  ◌≡◌, ◌⊎◌, refl, sym, ap, ◌∙◌, true, false, Option, none, some, List, [], ◌∷◌, ◌++◌, any, find,
  if◌then◌else◌, arith, Bool-cases, Option-cases, inl, inr,
}
use hisohiso.Envelopes.Scan.{Envelope, has_blocks, last_or, choose}

find-append :
    (xs : List Envelope) (e : Envelope)
    → find has_blocks (xs ++ (e ∷ []))
      ≡ elim (find has_blocks xs) [ none ↦ if has_blocks e then some e else none | some c ↦ some c ]
find-append [] e = refl
find-append (x ∷ xs) e = elim (Bool-cases (has_blocks x)) [
  | inl b ↦ rw b refl
  | inr b ↦ rw b (find-append xs e)
]

-- The last member with blocks, by recursion from the front.
abbrev pub last_with_blocks : List Envelope → Option Envelope
last_with_blocks [] = none
last_with_blocks (e ∷ es) = elim (last_with_blocks es) [
  | none ↦ if has_blocks e then some e else none
  | some c ↦ some c
]

find-reverse : (es : List Envelope) → find has_blocks (reverse es) ≡ last_with_blocks es
find-reverse [] = refl
find-reverse (e ∷ es) =
    ap (find has_blocks) (reverse-append (e ∷ []) es)
    ∙ find-append (reverse es) e
    ∙ ap
        (λ o. elim o as (λ x. Option Envelope) [
          | none ↦ if has_blocks e then some e else none
          | some c ↦ some c
        ])
        (find-reverse es)

last_or-last :
    (e : Envelope) (es : List Envelope)
    → (pre : List Envelope) × (pre ++ (last_or e es ∷ []) ≡ e ∷ es)
last_or-last e [] = ([], refl)
last_or-last e (f ∷ fs) = let (pre, h) = last_or-last f fs in (e ∷ pre, ap (λ l. e ∷ l) h)

none_with_blocks : (es : List Envelope) → last_with_blocks es ≡ none → any has_blocks es ≡ false
none_with_blocks [] h = refl
none_with_blocks (e ∷ es) h = elim (Option-cases (last_with_blocks es)) [
  | inr (c, k) ↦ absurd (cc (rw k at h))
  | inl k ↦ elim (Bool-cases (has_blocks e)) [
    | inl b ↦ absurd (cc (rw (k, b) at h))
    | inr b ↦ rw b (none_with_blocks es k)
  ]
]

last_with_blocks-last :
    (es : List Envelope) (c : Envelope)
    → last_with_blocks es ≡ some c
    → (pre post : List Envelope) × (pre ++ (c ∷ post) ≡ es)
      × (has_blocks c ≡ true)
      × (any has_blocks post ≡ false)
last_with_blocks-last [] c h = absurd (cc (h))
last_with_blocks-last (e ∷ es) c h = elim (Option-cases (last_with_blocks es)) [
  | inr (d, k) ↦
      let same : some d ≡ some c = rw k at h in
      let (pre, post, whole, has, rest) = last_with_blocks-last es c (k ∙ same) in
      (e ∷ pre, post, ap (λ l. e ∷ l) whole, has, rest)
  | inl k ↦ elim (Bool-cases (has_blocks e)) [
    | inl b ↦
        let same : some e ≡ some c = rw (k, b) at h in
        let at_c : e ≡ c = ground (arith, same) in
        ([], es, ap (λ x. x ∷ es) (sym at_c), ap has_blocks (sym at_c) ∙ b, none_with_blocks es k)
    | inr b ↦ absurd (cc (rw (k, b) at h))
  ]
]

-- The envelope that is chosen is one of those found: the last with blocks, or if none has blocks the
-- last.
pub choose-last :
    (e : Envelope) (es : List Envelope)
    → (pre post : List Envelope) × (pre ++ (choose e es ∷ post) ≡ e ∷ es)
      × (any has_blocks post ≡ false)
      × (((has_blocks (choose e es)) ≡ true) ⊎ ((any has_blocks (e ∷ es) ≡ false) × (post ≡ [])))
unfolding choose
choose-last e es = elim (Option-cases (last_with_blocks (e ∷ es))) [
  | inl h ↦
      let found : find has_blocks (reverse (e ∷ es)) ≡ none = find-reverse (e ∷ es) ∙ h in
      let (pre, whole) = last_or-last e es in
      rw (choose, found) (pre, [], whole, refl, inr (none_with_blocks (e ∷ es) h, refl))
  | inr (c, h) ↦
      let found : find has_blocks (reverse (e ∷ es)) ≡ some c = find-reverse (e ∷ es) ∙ h in
      let (pre, post, whole, has, rest) = last_with_blocks-last (e ∷ es) c h in
      rw (choose, found) (pre, post, whole, rest, inl has)
]
