-- ===== src/Envelopes/Grammar.antt =====
-- cli/src/lib/agent-process.ts: what `findBlockEnvelopes` finds, told by a grammar of outputs.
use mathlib.Core.List.{append_assoc, append-nil}
use hisohiso.Prelude.{
  ℕ, suc, ◌≡◌, refl, sym, ap, ◌∙◌, Bool, true, false, Option, none, some, List, [], ◌∷◌, ◌++◌, ◌==◌,
  Bool-cases, inl, inr,
}
use hisohiso.Text.{Text}
use hisohiso.Json.{Json}
use hisohiso.Envelopes.Scan.{
  Envelope, Scan, at_rest, extended, found, step, scan, find_block_envelopes,
}

-- A character of a quoted string, or a backslash with the character it escapes.
pub data Unquoted : Type 0 where
  plain escaped : ℕ → Unquoted

-- A text as characters, quoted strings and braces with a text between them.
pub data Output : Type 0 where
  end : Output
  char : ℕ → Output → Output
  quoted : List Unquoted → Output → Output
  object : Output → Output → Output

abbrev pub print_quoted : List Unquoted → Text
print_quoted [] = []
print_quoted (plain c ∷ q) = c ∷ print_quoted q
print_quoted (escaped c ∷ q) = 92 ∷ c ∷ print_quoted q

abbrev pub print : Output → Text
print end = []
print (char c o) = c ∷ print o
print (quoted q o) = 34 ∷ (print_quoted q ++ (34 ∷ print o))
print (object inner o) = 123 ∷ (print inner ++ (125 ∷ print o))

abbrev pub IsQuoted : List Unquoted → Type 0
IsQuoted [] = Unit
IsQuoted (plain c ∷ q) = ((c == 34) ≡ false) × ((c == 92) ≡ false) × IsQuoted q
IsQuoted (escaped c ∷ q) = IsQuoted q

-- The text between two braces: no character is a quote or a brace.
abbrev pub IsInside : Output → Type 0
IsInside end = Unit
IsInside (char c o) = ((c == 34) ≡ false) × ((c == 123) ≡ false) × ((c == 125) ≡ false) × IsInside o
IsInside (quoted q o) = IsQuoted q × IsInside o
IsInside (object inner o) = IsInside inner × IsInside o

-- A whole output: outside of braces a closing one may stand as well.
abbrev pub IsOutput : Output → Type 0
IsOutput end = Unit
IsOutput (char c o) = ((c == 34) ≡ false) × ((c == 123) ≡ false) × IsOutput o
IsOutput (quoted q o) = IsQuoted q × IsOutput o
IsOutput (object inner o) = IsInside inner × IsOutput o

-- The outermost objects, with their braces.
abbrev pub objects : Output → List Text
objects end = []
objects (char c o) = objects o
objects (quoted q o) = objects o
objects (object inner o) = print (object inner end) ∷ objects o

abbrev pub found_all : (Text → Option Json) → List Text → List Envelope
found_all parse [] = []
found_all parse (t ∷ ts) = found parse t ++ found_all parse ts

-- The text since `objStart` with more text behind it.
abbrev grown : Option Text → Text → Option Text
grown none t = none
grown (some s) t = some (s ++ t)

-- The scan at a depth, outside of strings or inside one.
abbrev at : ℕ → Bool → Option Text → List Envelope → Scan
at d quote o es = record {
  depth = d;
  in_string = quote;
  escape = false;
  object = o;
  envelopes = es;
}

grown-nil : (o : Option Text) → grown o [] ≡ o
grown-nil none = refl
grown-nil (some s) = ap some (append-nil s)

grown-extended : (o : Option Text) (c : ℕ) (t : Text) → grown (extended c o) t ≡ grown o (c ∷ t)
grown-extended none c t = refl
grown-extended (some s) c t = ap some (append_assoc s (c ∷ []) t)

module _ (parse : Text → Option Json) where
  step-plain :
      (c d : ℕ) (o : Option Text) (es : List Envelope)
      → (c == 34) ≡ false
      → (c == 92) ≡ false
      → step parse c (at d true o es) ≡ at d true (extended c o) es
  unfolding step
  step-plain c d o es quote slash = simp (quote, slash) refl

  step-char :
      (c d : ℕ) (o : Option Text) (es : List Envelope)
      → (c == 34) ≡ false
      → (c == 123) ≡ false
      → (c == 125) ≡ false
      → step parse c (at d false o es) ≡ at d false (extended c o) es
  unfolding step
  step-char c d o es quote brace closing = simp (quote, brace, closing) refl

  -- A quoted string is passed, whatever braces and escaped quotes it holds.
  scan-print_quoted :
      (q : List Unquoted) (d : ℕ) (o : Option Text) (es : List Envelope) (u : Text)
      → IsQuoted q
      → scan parse (print_quoted q ++ (34 ∷ u)) (at d true o es)
        ≡ scan parse u (at d false (grown o (print_quoted q ++ (34 ∷ []))) es)
  unfolding scan step
  scan-print_quoted [] d none es u h = refl
  scan-print_quoted [] d (some s) es u h = refl
  scan-print_quoted (plain c ∷ q) d o es u (quote, slash, h) =
      ap (scan parse (print_quoted q ++ (34 ∷ u))) (step-plain c d o es quote slash)
      ∙ scan-print_quoted q d (extended c o) es u h
      ∙ ap (λ x. scan parse u (at d false x es)) (grown-extended o c (print_quoted q ++ (34 ∷ [])))
  scan-print_quoted (escaped c ∷ q) d o es u h =
      scan-print_quoted q d (extended c (extended 92 o)) es u h
      ∙ ap (λ x. scan parse u (at d false x es))
          (grown-extended (extended 92 o) c (print_quoted q ++ (34 ∷ []))
            ∙ grown-extended o 92 (c ∷ (print_quoted q ++ (34 ∷ []))))

  -- The text between braces is passed as well, and its inner objects stay in the outer one.
  scan-print_inside :
      (i : Output) (d : ℕ) (s : Text) (es : List Envelope) (u : Text)
      → IsInside i
      → scan parse (print i ++ u) (at (suc d) false (some s) es)
        ≡ scan parse u (at (suc d) false (some (s ++ print i)) es)
  unfolding scan step
  scan-print_inside end d s es u h =
      ap (λ x. scan parse u (at (suc d) false (some x) es)) (sym (append-nil s))
  scan-print_inside (char c o) d s es u (quote, brace, closing, h) =
      ap (scan parse (print o ++ u)) (step-char c (suc d) (some s) es quote brace closing)
      ∙ scan-print_inside o d (s ++ (c ∷ [])) es u h
      ∙ ap (λ x. scan parse u (at (suc d) false (some x) es)) (append_assoc s (c ∷ []) (print o))
  scan-print_inside (quoted q o) d s es u (h, k) =
      ap (λ t. scan parse t (at (suc d) true (some (s ++ (34 ∷ []))) es))
        (append_assoc (print_quoted q) (34 ∷ print o) u)
      ∙ scan-print_quoted q (suc d) (some (s ++ (34 ∷ []))) es (print o ++ u) h
      ∙ scan-print_inside o d ((s ++ (34 ∷ [])) ++ (print_quoted q ++ (34 ∷ []))) es u k
      ∙ ap (λ x. scan parse u (at (suc d) false (some x) es)) (simp append_assoc refl)
  scan-print_inside (object inner o) d s es u (h, k) =
      ap (λ t. scan parse t (at (suc (suc d)) false (some (s ++ (123 ∷ []))) es))
        (append_assoc (print inner) (125 ∷ print o) u)
      ∙ scan-print_inside inner (suc d) (s ++ (123 ∷ [])) es (125 ∷ (print o ++ u)) h
      ∙ scan-print_inside o d (((s ++ (123 ∷ [])) ++ print inner) ++ (125 ∷ [])) es u k
      ∙ ap (λ x. scan parse u (at (suc d) false (some x) es)) (simp append_assoc refl)

  step-outside :
      (c : ℕ) (es : List Envelope)
      → (c == 34) ≡ false
      → (c == 123) ≡ false
      → step parse c (at_rest es) ≡ at_rest es
  unfolding step
  step-outside c es quote brace = elim (Bool-cases (c == 125)) [
    | inl closing ↦ simp (quote, brace, closing) refl
    | inr other ↦ simp (quote, brace, other) refl
  ]

  scan-print :
      (o : Output) (es : List Envelope)
      → IsOutput o
      → scan parse (print o) (at_rest es) ≡ at_rest (es ++ found_all parse (objects o))
  unfolding scan step
  scan-print end es h = ap at_rest (sym (append-nil es))
  scan-print (char c o) es (quote, brace, h) =
      ap (scan parse (print o)) (step-outside c es quote brace) ∙ scan-print o es h
  scan-print (quoted q o) es (h, k) = scan-print_quoted q 0 none es (print o) h ∙ scan-print o es k
  scan-print (object inner o) es (h, k) =
      scan-print_inside inner 0 (123 ∷ []) es (125 ∷ print o) h
      ∙ scan-print o (es ++ found parse (print (object inner end))) k
      ∙ ap at_rest
          (append_assoc es (found parse (print (object inner end))) (found_all parse (objects o)))

  -- Of an output that is made of characters, closed strings and balanced braces, the envelopes are
  -- those that JSON.parse makes of its outermost objects, in their order: braces in strings and quotes
  -- behind a backslash count for nothing, and an object within another one is no object of its own.
  pub find_block_envelopes-print :
      (o : Output) → IsOutput o → find_block_envelopes parse (print o) ≡ found_all parse (objects o)
  unfolding find_block_envelopes
  find_block_envelopes-print o h = ap (λ s. s.envelopes) (scan-print o [] h)
