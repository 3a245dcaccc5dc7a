-- ===== src/Channels/Groups.antt =====
-- app/src/lib/room-grouping.ts: `groupOpenChannels`, on the fields of a stored room that it reads.
use hisohiso.Prelude.{Bool, true, false, not, ◌||◌, Option, none, some, List, map, filter, any}
use hisohiso.Text.{Text, text_eq}
use hisohiso.Message.Envelope.{RoomKind, control, agent, is_empty}

pub record StoredRoom : Type 0 where
  pub room_hash : Text
  pub kind : Option RoomKind
  pub control_room_hash : Option Text

pub record ControlGroup : Type 0 where
  pub control : StoredRoom
  pub agents : List StoredRoom

pub record OpenChannelGroups : Type 0 where
  pub groups : List ControlGroup
  pub orphan_agents : List StoredRoom
  pub has_any : Bool

abbrev pub is_control : StoredRoom → Bool
is_control r = is_kind r.kind
  where
    is_kind : Option RoomKind → Bool
    is_kind (some control) = true
    is_kind k = false

abbrev pub is_agent : StoredRoom → Bool
is_agent r = is_kind r.kind
  where
    is_kind : Option RoomKind → Bool
    is_kind (some agent) = true
    is_kind k = false

-- `h === roomHash`
abbrev pub same_hash : Option Text → Text → Bool
same_hash none hash = false
same_hash (some h) hash = text_eq h hash

-- `a.controlRoomHash === control.roomHash`
abbrev pub is_under : StoredRoom → StoredRoom → Bool
is_under c a = same_hash a.control_room_hash c.room_hash

abbrev pub blank : Option Text → Bool
blank none = true
blank (some h) = is_empty h

-- No control room is named, or none that is known.
abbrev pub is_orphan : List StoredRoom → StoredRoom → Bool
is_orphan controls a =
    blank a.control_room_hash
    || not (any (λ (c : StoredRoom). same_hash a.control_room_hash c.room_hash) controls)

abbrev pub group : List StoredRoom → StoredRoom → ControlGroup
group agents c = record { control = c; agents = filter (is_under c) agents }

-- `groupOpenChannels`
unfoldable pub group_open_channels : List StoredRoom → OpenChannelGroups
group_open_channels rooms =
    let controls = filter is_control rooms in
    let agents = filter is_agent rooms in
    let groups = map (group agents) controls in
    let orphans = filter (is_orphan controls) agents in
    record {
      groups = groups;
      orphan_agents = orphans;
      has_any = not (is_empty groups) || not (is_empty orphans);
    }
