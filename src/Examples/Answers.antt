-- ===== src/Examples/Answers.antt =====
-- The envelopes of an output at concrete inputs.
use hisohiso.Prelude.{
  ◌≡◌, ◌⊎◌, refl, true, false, Option, none, some, List, [], ◌∷◌, ◌++◌, arith, any, if◌then◌else◌,
}
use hisohiso.Text.{Text, units, text_eq}
use hisohiso.Json.{Json, null, str, obj, end, field, arr, nil, cons}
use hisohiso.Envelopes.Scan.{Envelope, scan, find_block_envelopes, has_blocks, choose}
use hisohiso.Envelopes.Choice.{choose-last}
use hisohiso.Envelopes.Grammar.{
  Unquoted, plain, escaped, Output, char, quoted, object, print, found_all, objects,
  find_block_envelopes-print,
}

-- A quote with an escaped quote and a brace in it.
abbrev talk : Text
talk = units "{\"text\":\"I \\\"}\"}"

abbrev answer : Text
answer = units "{\"text\":\"done\",\"blocks\":[null]}"

abbrev parse : Text → Option Json
parse t =
    if text_eq t talk
    then some (obj (field "text" (str "I \"}") end))
    else if text_eq t answer
    then some (obj (field "text" (str "done") (field "blocks" (arr (cons null nil)) end)))
    else none

abbrev plains : Text → List Unquoted
plains [] = []
plains (c ∷ cs) = plain c ∷ plains cs

abbrev chars : Text → Output → Output
chars [] o = o
chars (c ∷ cs) o = char c (chars cs o)

abbrev word : Text → Output → Output
word t o = quoted (plains t) o

abbrev talk_inner : Output
talk_inner =
    word (units "text")
      (char 58 (quoted (plain 73 ∷ plain 32 ∷ escaped 34 ∷ plain 125 ∷ []) Output.end))

abbrev answer_inner : Output
answer_inner = word (units "text") (
    char 58
      (word (units "done") (char 44 (word (units "blocks") (chars (units ":[null]") Output.end)))))

-- A closing brace, a quoted opening one, and the two objects.
abbrev outputs : Output
outputs = char 125 (quoted (plain 123 ∷ []) (object talk_inner (object answer_inner Output.end)))

outputs-print : print outputs ≡ units "}\"{\"" ++ (talk ++ answer)
outputs-print = refl

abbrev hello : Envelope
hello = record { text = units "I \"}"; blocks = none; room_name = none }

abbrev done : Envelope
done = record { text = units "done"; blocks = some (null ∷ []); room_name = none }

find_block_envelopes-print_example :
    find_block_envelopes parse (print outputs) ≡ found_all parse (objects outputs)
find_block_envelopes-print_example = find_block_envelopes-print parse outputs (ground arith)

-- The envelopes that are found.
outputs-envelopes : found_all parse (objects outputs) ≡ hello ∷ done ∷ []
unfolding text_eq hisohiso.Json.lookup hisohiso.Envelopes.Scan.envelope_of
outputs-envelopes = refl

choose-last_example :
    (pre post : List Envelope) × (pre ++ (choose hello (done ∷ hello ∷ []) ∷ post)
      ≡ hello ∷ done ∷ hello ∷ [])
    × (any has_blocks post ≡ false)
    × ((has_blocks (choose hello (done ∷ hello ∷ [])) ≡ true)
        ⊎ ((any has_blocks (hello ∷ done ∷ hello ∷ []) ≡ false) × (post ≡ [])))
choose-last_example = choose-last hello (done ∷ hello ∷ [])
