-- ===== src/Turn/Ending.antt =====
-- cli/src/lib/agent-stream.ts: how a turn ends, over any lines and beats.
use hisohiso.Prelude.{◌≡◌, true, false, ◌||◌, Option, List, [], ◌∷◌, ◌++◌, any, filter_map}
use hisohiso.Text.{Text}
use hisohiso.Json.{Json}
use hisohiso.Turn.Stream.{Event, Outcome, returns, throws, Format, parse_line}
use hisohiso.Turn.Runner.{State, Input, line, beat}
use hisohiso.Turn.RunnerLaws.{is_bad, answer}
use hisohiso.Turn.Latest.{Latest}

module _ (json_parse : Text → Option Json) (format : Format) where
  -- The events of what the turn's process prints, those of a line that the parser fails on left out.
  abbrev events_in : Outcome (List Event) → List Event
  events_in (returns evs) = evs
  events_in throws = []

  abbrev pub events_of : List Input → List Event
  events_of [] = []
  events_of (line now t true ∷ is) = events_of is
  events_of (line now t false ∷ is) = events_in (parse_line json_parse format t) ++ events_of is
  events_of (beat now ∷ is) = events_of is

  -- What a state has after some events.
  record After (evs : List Event) (st st' : State) : Type 0 where
    failure : st'.is_error ≡ (st.is_error || any is_bad evs)
    answers : st'.results ≡ st.results ++ filter_map answer evs
    latest : Latest st → Latest st'
