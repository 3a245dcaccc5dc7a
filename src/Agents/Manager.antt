-- ===== src/Agents/Manager.antt =====
-- cli/src/daemon/agent-manager.ts: the fields of `AgentManager` and the table of sessions.
--
-- Session objects are shared by the table and the handlers of their event streams, so they stand on
-- a heap and the table holds addresses. `Object`-like maps are lists in insertion order. The control
-- room's messages are told apart by what they say.
use hisohiso.Prelude.{
  ℕ, suc, Bool, not, Option, none, some, List, [], ◌∷◌, ◌++◌, map, ◌==◌, if◌then◌else◌, filter, any,
}
use hisohiso.Text.{Text, text_eq}
use hisohiso.Agents.Session.{Session, ActiveRoom, saved}

-- `PendingAgentKnock`
pub record PendingKnock : Type 0 where
  pub agent_id : Text
  pub knock_pubkey : Text
  pub knock_msg_id : Text
  pub expires_at : ℕ

pub data Notice : Type 0 where
  asks_to_join : (name agent_id knock_msg_id : Text) → Notice
  not_pending request_expired : Notice
  denied admitted not_admitted : (agent_id : Text) → Notice
  room_closed cleaned_up : (name agent_id : Text) → Notice

-- Who wanted an approval: the first knock of the room of a session object, the bound device again,
-- or the operator, for the knock parked under a key.
pub data Cause : Type 0 where
  first_device : (object : ℕ) → Cause
  same_device : Cause
  operator : (key : Text) → Cause

-- A call of `approveAgentKnock`: the agent, the device, and who wanted it.
pub record Approval : Type 0 where
  pub agent_id : Text
  pub knock_pubkey : Text
  pub knock_msg_id : Text
  pub cause : Cause

pub record Manager : Type 0 where
  pub heap : ℕ → Session
  pub sessions : List (Text × ℕ)
  pub pending_agent_knocks : List (Text × PendingKnock)
  pub session_knock_message : Text
  pub rooms_file : List ActiveRoom
  pub notices : List Notice
  -- The approvals that wait for the relay, and those that it granted.
  pub approving : List Approval
  pub admitted_devices : List Approval

unfoldable pub session_of : Text → List (Text × ℕ) → Option ℕ
session_of id [] = none
session_of id ((k, a) ∷ rest) = if text_eq k id then some a else session_of id rest

abbrev pub set_at : (ℕ → Session) → ℕ → Session → ℕ → Session
set_at heap a s b = if b == a then s else heap b

-- `persistRooms`
unfoldable pub persist_rooms : ℕ → Manager → Manager
persist_rooms now m = record m {
  rooms_file = map (λ (e : Text × ℕ). saved now (m.heap e.1)) m.sessions;
}

abbrev pub notify : Notice → Manager → Manager
notify n m = record m { notices = m.notices ++ (n ∷ []) }

-- `isIdle`
unfoldable pub is_idle : Manager → Bool
is_idle m = not (any (λ (e : Text × ℕ). (m.heap e.1).running) m.sessions)

-- `listRunning`
abbrev pub list_running : Manager → List (Text × Text)
list_running m = map (λ (e : Text × ℕ). ((m.heap e.1).agent_id, (m.heap e.1).name)) m.sessions

-- `getRoomInfo`: name, secret and pairing code.
abbrev pub get_room_info : Text → Manager → Option (Text × Text × Text)
get_room_info id m = elim (session_of id m.sessions) [
  | none ↦ none
  | some a ↦ some ((m.heap a).name, (m.heap a).room_secret, (m.heap a).room_password)
]

-- `closeSession`
unfoldable pub close_session : ℕ → Text → Manager → Manager
unfolding persist_rooms
close_session now id m = elim (session_of id m.sessions) [
  | none ↦ m
  | some a ↦
      persist_rooms now
        (record m { sessions = filter (λ (e : Text × ℕ). not (text_eq e.0 id)) m.sessions })
]

-- `kill`: none for the error of an unknown id. The second write of the file says the same.
unfoldable pub kill : ℕ → Text → Manager → Option Manager
unfolding close_session
kill now id m = elim (session_of id m.sessions) [
  | none ↦ none
  | some a ↦ some (persist_rooms now (close_session now id m))
]

-- `onDestroy` of a session's stream.
unfoldable pub on_destroy : ℕ → ℕ → Manager → Manager
unfolding close_session
on_destroy now a m =
    let s = m.heap a in notify (room_closed s.name s.agent_id) (close_session now s.agent_id m)

pub data RoomStatus : Type 0 where
  gone alive unknown : RoomStatus

-- `reconcileSession`, from the relay's answer on; the table was read before the request and the
-- session found at `a`.
unfoldable pub reconcile_answer : ℕ → Text → ℕ → RoomStatus → Manager → Manager
unfolding close_session
reconcile_answer now id a gone m = notify (cleaned_up (m.heap a).name id) (close_session now id m)
reconcile_answer now id a alive m = m
reconcile_answer now id a unknown m = m

-- The answers of `reconcileAll` for the ids of the table, and its summary.
pub record Summary : Type 0 where
  pub cleaned : List Text
  pub alive_count : ℕ
  pub unknown_count : ℕ

abbrev pub tally : Text → RoomStatus → Summary → Summary
tally id gone s = record s { cleaned = id ∷ s.cleaned }
tally id alive s = record s { alive_count = suc s.alive_count }
tally id unknown s = record s { unknown_count = suc s.unknown_count }

-- The requests run together and their answers come in one after the other, in the order given.
unfoldable pub reconcile_all :
    ℕ → (Text → RoomStatus) → List (Text × ℕ) → Manager → Manager × Summary
unfolding reconcile_answer
reconcile_all now status [] m = (m, record { cleaned = []; alive_count = 0; unknown_count = 0 })
reconcile_all now status ((id, a) ∷ rest) m =
    let (n, summary) = reconcile_all now status rest (reconcile_answer now id a (status id) m) in
    (n, tally id (status id) summary)

-- `detachAll`
abbrev pub detach_all : Manager → Manager
detach_all m = record m { sessions = [] }
