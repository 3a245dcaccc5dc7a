-- ===== src/Text/Defs.antt =====
-- String methods over code units: `===`, `trim`, `split`, `join`, `Number` on digits and
-- `toString`, as the ECMAScript library defines them.
use Prim.Native.Char.{code}
use mathlib.Core.List.{reverse}
use hisohiso.Prelude.{
  ℕ, zero, suc, ◌+◌, ◌-◌, ◌*◌, ◌/◌, ◌%◌, String, Bool, true, false, ◌&&◌, ◌||◌, List, [], ◌∷◌, ◌++◌,
  ltb, leb, ◌==◌, if◌then◌else◌,
}

abbrev pub Text : Type 0
Text = List ℕ

-- A code point beyond the basic plane is a surrogate pair.
abbrev pub units : String → Text
units String.[] = []
units (String.◌∷◌ c s) =
    if ltb (code c) 65536
    then code c ∷ units s
    else (55296 + (code c - 65536) / 1024) ∷ (56320 + (code c - 65536) % 1024) ∷ units s

unfoldable pub text_eq : Text → Text → Bool
text_eq [] [] = true
text_eq [] (d ∷ ds) = false
text_eq (c ∷ cs) [] = false
text_eq (c ∷ cs) (d ∷ ds) = c == d && text_eq cs ds

-- White space and line terminators: what `trim` removes and `\s` matches.
unfoldable pub is_space : ℕ → Bool
is_space c =
    (leb 9 c && leb c 13)
    || c == 32
    || c == 160
    || c == 5760
    || (leb 8192 c && leb c 8202)
    || c == 8232
    || c == 8233
    || c == 8239
    || c == 8287
    || c == 12288
    || c == 65279

-- `\d`
abbrev pub is_digit : ℕ → Bool
is_digit c = leb 48 c && leb c 57

unfoldable pub strip_start : Text → Text
strip_start [] = []
strip_start (c ∷ cs) = let rest = strip_start cs in if is_space c then rest else c ∷ cs

unfoldable pub trim : Text → Text
unfolding strip_start
trim t = reverse (strip_start (reverse (strip_start t)))

-- `t.split(sep)` at a one-unit separator: the first piece and the others.
unfoldable pub split_first : ℕ → Text → Text × List Text
split_first sep [] = ([], [])
split_first sep (c ∷ cs) =
    let (piece, pieces) = split_first sep cs in
    if c == sep then ([], piece ∷ pieces) else (c ∷ piece, pieces)

unfoldable pub split_on : ℕ → Text → List Text
unfolding split_first
split_on sep t = let (piece, pieces) = split_first sep t in piece ∷ pieces

abbrev pub starts_in_space : Text → Bool
starts_in_space [] = false
starts_in_space (c ∷ cs) = is_space c

-- `t.split(/\s+/)`: a run of white space is one separator.
unfoldable pub words_first : Text → Text × List Text
words_first [] = ([], [])
words_first (c ∷ cs) =
    let (word, words) = words_first cs in
    if is_space c
    then (if starts_in_space cs then (word, words) else ([], word ∷ words))
    else (c ∷ word, words)

unfoldable pub split_space : Text → List Text
unfolding words_first
split_space t = let (word, words) = words_first t in word ∷ words

unfoldable pub join : ℕ → List Text → Text
join sep [] = []
join sep (t ∷ []) = t
join sep (t ∷ u ∷ ts) = t ++ (sep ∷ join sep (u ∷ ts))

-- `replace(/\s+/g, ' ')`
unfoldable pub collapse : Bool → Text → Text
collapse in_run [] = []
collapse in_run (c ∷ cs) =
    let rest = collapse (is_space c) cs in
    if is_space c then (if in_run then rest else 32 ∷ rest) else c ∷ rest

-- `t.trimEnd()`
unfoldable pub trim_end : Text → Text
unfolding strip_start
trim_end t = reverse (strip_start (reverse t))

-- `Number(t)` on a text of digits.
unfoldable pub decimal_from : ℕ → Text → ℕ
decimal_from n [] = n
decimal_from n (c ∷ cs) = decimal_from (n * 10 + (c - 48)) cs

unfoldable pub decimal : Text → ℕ
unfolding decimal_from
decimal t = decimal_from 0 t

abbrev pub digit_unit : ℕ → ℕ
digit_unit d = if ltb d 10 then 48 + d else 87 + d

-- `n.toString(base)`; the fuel is a bound on the number of digits.
unfoldable pub show_fuel : ℕ → ℕ → ℕ → Text
show_fuel zero base n = []
show_fuel (suc f) base n =
    let rest = show_fuel f base (n / base) in
    if ltb n base then digit_unit n ∷ [] else rest ++ (digit_unit (n % base) ∷ [])

unfoldable pub show_base : ℕ → ℕ → Text
unfolding show_fuel
show_base base n = show_fuel (suc n) base n

-- `String(n)`
unfoldable pub show : ℕ → Text
unfolding show_base
show n = show_base 10 n
