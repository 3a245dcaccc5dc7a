-- ===== src/Examples/Rooms.antt =====
-- Rooms and their local values at concrete inputs.
use hisohiso.Prelude.{
  ℕ, ◌+◌, true, false, Option, none, some, List, [], ◌∷◌, ◌≡◌, refl, ap, length, filter,
}
use hisohiso.Text.{Text, units, text_eq, decimal, show}
use hisohiso.Text.Laws.{decimal-show}
use hisohiso.Message.Envelope.{control, agent}
use hisohiso.Channels.Groups.{StoredRoom, is_control, is_agent, group_open_channels}
use hisohiso.Channels.Partition.{Proper, shown, group_open_channels-partition}
use hisohiso.Prelude.{not, any, ◌||◌, ◌&&◌}
use hisohiso.Lock.{
  PageEvent, locked_after, should_start_locked, goes_to_background,
  locked_after-should_start_locked,
}
use hisohiso.Hints.Local.{Local}

abbrev rooms : List StoredRoom
rooms =
    record { room_hash = units "c1"; kind = some control; control_room_hash = none }
    ∷ record { room_hash = units "a1"; kind = some agent; control_room_hash = some (units "c1") }
    ∷ record { room_hash = units "c2"; kind = some control; control_room_hash = none }
    ∷ record { room_hash = units "a2"; kind = some agent; control_room_hash = some (units "gone") }
    ∷ []

rooms-Proper : Proper (filter is_control rooms)
unfolding text_eq
rooms-Proper = (refl, (refl, tt), (refl, tt, tt))

group_open_channels-partition_example :
    shown (group_open_channels rooms).groups + length (group_open_channels rooms).orphan_agents
    ≡ length (filter is_agent rooms)
group_open_channels-partition_example = group_open_channels-partition rooms rooms-Proper

abbrev local : Local
local = record { available = true; entries = [] }

abbrev read_digits : Text → Option ℕ
read_digits t = some (decimal t)

read_digits-show : (n : ℕ) → read_digits (show n) ≡ some n
read_digits-show n = ap some (decimal-show n)

abbrev page_events : List PageEvent
page_events =
    record { hidden = true; navigating = true } ∷ record { hidden = true; navigating = false } ∷ []

locked_after-should_start_locked_example :
    locked_after true page_events (should_start_locked true true)
    ≡ (true && (not true || any goes_to_background page_events))
locked_after-should_start_locked_example = locked_after-should_start_locked true true page_events
