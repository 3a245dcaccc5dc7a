-- ===== src/Agents/Session.antt =====
-- cli/src/daemon/agent-manager.ts: the type `AgentSession`, less the handles of the event stream, the
-- presence timer and the keys, and the record that `persistRooms` writes of it.
use hisohiso.Prelude.{ℕ, Bool, false, Option, none, some, List, []}
use hisohiso.Text.{Text}
use hisohiso.Agents.Ledger.{Entry, prune_seen_msg_ids}

-- A buffered message.
pub record Queued : Type 0 where
  pub text : Text
  pub from : Text

pub record Session : Type 0 where
  pub agent_id : Text
  pub name : Text
  pub room_hash : Text
  pub room_secret : Text
  pub room_password : Text
  pub participant_token : Text
  pub subscriber_jwt : Text
  pub session_id : Option Text
  pub running : Bool
  pub last_reply_needs_attention : Bool
  pub status_seq : ℕ
  pub bound : Bool
  pub bound_pubkey : Option Text
  pub pending : List Queued
  pub seen_msg_ids : List Entry
  pub last_event_at : ℕ
  pub last_title : Option Text

-- `ActiveRoom`, as rooms.json holds it; the field `pid` is always 0. Older files lack the last
-- three fields.
pub record ActiveRoom : Type 0 where
  pub agent_id : Text
  pub name : Text
  pub room_hash : Text
  pub room_secret : Text
  pub room_password : Option Text
  pub participant_token : Text
  pub subscriber_jwt : Text
  pub session_id : Option Text
  pub bound : Option Bool
  pub bound_pubkey : Option Text
  pub seen_msg_ids : Option (List Entry)

abbrev pub or_else {ℓ} : {A : Type ℓ} → Option A → A → A
or_else none d = d
or_else (some x) d = x

-- What `persistRooms` writes of one session.
unfoldable pub saved : ℕ → Session → ActiveRoom
saved now s = record {
  agent_id = s.agent_id;
  name = s.name;
  room_hash = s.room_hash;
  room_secret = s.room_secret;
  room_password = some s.room_password;
  participant_token = s.participant_token;
  subscriber_jwt = s.subscriber_jwt;
  session_id = s.session_id;
  bound = some s.bound;
  bound_pubkey = s.bound_pubkey;
  seen_msg_ids = some (prune_seen_msg_ids now s.seen_msg_ids);
}

-- The session that `attachToRoom` makes of a room's record and its pairing code.
unfoldable pub attach : ℕ → Text → ActiveRoom → Session
attach now password r = record {
  agent_id = r.agent_id;
  name = r.name;
  room_hash = r.room_hash;
  room_secret = r.room_secret;
  room_password = password;
  participant_token = r.participant_token;
  subscriber_jwt = r.subscriber_jwt;
  session_id = r.session_id;
  running = false;
  last_reply_needs_attention = false;
  status_seq = 0;
  bound = or_else r.bound false;
  bound_pubkey = r.bound_pubkey;
  pending = [];
  seen_msg_ids = prune_seen_msg_ids now (or_else r.seen_msg_ids []);
  last_event_at = now;
  last_title = none;
}
