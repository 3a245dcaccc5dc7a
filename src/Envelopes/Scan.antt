-- ===== src/Envelopes/Scan.antt =====
-- cli/src/lib/agent-process.ts: `readRoomName`, `findBlockEnvelopes` and the choice that
-- `parseBlockOutput` makes among what it finds.
--
-- The positions in the text are told by the part of the text since `objStart`. `JSON.parse` is a
-- parameter, none where it throws. The salvage of truncated envelopes is left out.
use mathlib.Core.List.{reverse}
use hisohiso.Prelude.{
  ℕ, zero, suc, Bool, true, false, not, Option, none, some, List, [], ◌∷◌, ◌++◌, ◌==◌, find,
  if◌then◌else◌,
}
use hisohiso.Text.{Text, units, trim}
use hisohiso.Json.{Json, get, as_str, as_arr}
use hisohiso.Message.Envelope.{is_empty}

pub record Envelope : Type 0 where
  pub text : Text
  pub blocks : Option (List Json)
  pub room_name : Option Text

-- `readRoomName`
unfoldable pub read_room_name : Json → Option Text
read_room_name v = elim (as_str (get "room_name" v)) [
  | none ↦ none
  | some s ↦ if is_empty (trim (units s)) then none else some (trim (units s))
]

-- `Array.isArray(obj.blocks) && obj.blocks.length > 0 ? obj.blocks : null`
abbrev pub blocks_of : Json → Option (List Json)
blocks_of v = elim (as_arr (get "blocks" v)) [
  | none ↦ none
  | some [] ↦ none
  | some (b ∷ bs) ↦ some (b ∷ bs)
]

unfoldable pub envelope_of : Json → Option Envelope
unfolding read_room_name
envelope_of v = elim (as_str (get "text" v)) [
  | none ↦ none
  | some s ↦ some (record { text = units s; blocks = blocks_of v; room_name = read_room_name v })
]

-- The variables of the scan; `object` is the text since `objStart`, none for -1.
pub record Scan : Type 0 where
  pub depth : ℕ
  pub in_string : Bool
  pub escape : Bool
  pub object : Option Text
  pub envelopes : List Envelope

abbrev pub at_rest : List Envelope → Scan
at_rest es = record { depth = 0; in_string = false; escape = false; object = none; envelopes = es }

abbrev pub extended : ℕ → Option Text → Option Text
extended c none = none
extended c (some t) = some (t ++ (c ∷ []))

abbrev pub found : (Text → Option Json) → Text → List Envelope
found parse t = elim (parse t) [
  | none ↦ []
  | some v ↦ elim (envelope_of v) [ none ↦ [] | some e ↦ e ∷ [] ]
]

abbrev pub opened : ℕ → Scan → Scan
opened c s = record s {
  depth = suc s.depth;
  object = elim s.depth [ zero ↦ some (c ∷ []) | suc d ↦ extended c s.object ];
}

-- The closing of an object at depth 0.
abbrev pub finished : (Text → Option Json) → Option Text → List Envelope
finished parse none = []
finished parse (some t) = found parse t

abbrev pub closed : (Text → Option Json) → ℕ → Scan → Scan
closed parse c s = elim s.depth [
  | zero ↦ record s { object = extended c s.object }
  | suc zero ↦ record s {
    depth = 0;
    object = none;
    envelopes = s.envelopes ++ finished parse (extended c s.object);
  }
  | suc (suc d) ↦ record s { depth = suc d; object = extended c s.object }
]

-- One round of the loop.
unfoldable pub step : (Text → Option Json) → ℕ → Scan → Scan
unfolding envelope_of
step parse c s =
    if s.escape
    then record s { escape = false; object = extended c s.object }
    else if s.in_string
    then (if c == 92
        then record s { escape = true; object = extended c s.object }
        else if c == 34
        then record s { in_string = false; object = extended c s.object }
        else record s { object = extended c s.object })
    else if c == 34
    then record s { in_string = true; object = extended c s.object }
    else if c == 123
    then opened c s
    else if c == 125
    then closed parse c s
    else record s { object = extended c s.object }

unfoldable pub scan : (Text → Option Json) → Text → Scan → Scan
unfolding step
scan parse [] s = s
scan parse (c ∷ cs) s = scan parse cs (step parse c s)

-- `findBlockEnvelopes`
unfoldable pub find_block_envelopes : (Text → Option Json) → Text → List Envelope
unfolding scan
find_block_envelopes parse t = (scan parse t (at_rest [])).envelopes

abbrev pub has_blocks : Envelope → Bool
has_blocks e = elim e.blocks [ none ↦ false | some [] ↦ false | some (b ∷ bs) ↦ true ]

abbrev pub last_or : Envelope → List Envelope → Envelope
last_or e [] = e
last_or e (f ∷ fs) = last_or f fs

-- `[...envelopes].reverse().find(...) ?? envelopes[envelopes.length - 1]`, of a list that is not
-- empty.
unfoldable pub choose : Envelope → List Envelope → Envelope
choose e es = elim (find has_blocks (reverse (e ∷ es))) [ none ↦ last_or e es | some c ↦ c ]

abbrev pub has_title : Envelope → Bool
has_title e = elim e.room_name [ none ↦ false | some t ↦ not (is_empty t) ]

abbrev pub title_of : Option Envelope → Option Text
title_of none = none
title_of (some e) = e.room_name

-- `chosen.roomName ?? ...`
unfoldable pub title : Envelope → List Envelope → Option Text
unfolding choose
title e es = elim (choose e es).room_name [
  | some t ↦ some t
  | none ↦ title_of (find has_title (reverse (e ∷ es)))
]
