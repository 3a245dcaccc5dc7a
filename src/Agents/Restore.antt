-- ===== src/Agents/Restore.antt =====
-- cli/src/daemon/agent-manager.ts: `restore`, of the rooms that the last run of the daemon left.
--
-- What the relay, the profiles and the token's expiry say of a room is an argument. A room is
-- attached at once: the wait for its event stream and errors of the key derivation are left out.
use hisohiso.Prelude.{
  ℕ, suc, ◌≡◌, Bool, true, false, not, ◌&&◌, ◌||◌, Option, none, some, List, [], ◌∷◌, ◌++◌,
  if◌then◌else◌, arith,
}
use hisohiso.Text.{Text, text_eq}
use hisohiso.Message.Envelope.{is_empty}
use hisohiso.Agents.Session.{Session, ActiveRoom, attach}
use hisohiso.Agents.Manager.{Manager, set_at, persist_rooms}

pub record Answers : Type 0 where
  pub room_exists : Bool
  pub has_profile : Bool
  pub jwt_expires_soon : Bool
  pub refreshed_jwt : Option Text

pub data Dropped : Type 0 where
  no_room no_profile no_jwt no_refresh no_password : Dropped

abbrev Checked : Type 0
Checked = Option Session × Option Dropped

-- The pairing code, if it is there and not empty.
abbrev pub with_password : ℕ → ActiveRoom → Option Session × Option Dropped
with_password now r = elim r.room_password [
  | none ↦ (none, some no_password)
  | some p ↦ if is_empty p then (none, some no_password) else (some (attach now p r), none)
]

-- A new token in place of one that expires soon.
abbrev pub with_jwt : ℕ → Answers → ActiveRoom → Option Session × Option Dropped
with_jwt now a r =
    if a.jwt_expires_soon
    then (elim a.refreshed_jwt [
      | none ↦ (none, some no_refresh)
      | some jwt ↦ with_password now (record r { subscriber_jwt = jwt })
    ])
    else with_password now r

-- One round of the loop: the session, or why the room is dropped.
unfoldable pub restore_room : ℕ → Answers → ActiveRoom → Option Session × Option Dropped
restore_room now a r =
    if not a.room_exists
    then (none, some no_room)
    else if not a.has_profile
    then (none, some no_profile)
    else if is_empty r.subscriber_jwt
    then (none, some no_jwt)
    else with_jwt now a r

-- `sessions.set(id, ...)`
unfoldable pub put_session : Text → ℕ → List (Text × ℕ) → List (Text × ℕ)
put_session id a [] = (id, a) ∷ []
put_session id a ((k, b) ∷ es) =
    let rest = put_session id a es in if text_eq k id then (k, a) ∷ es else (k, b) ∷ rest

-- The manager and the ids restored and dropped so far.
pub record Progress : Type 0 where
  pub manager : Manager
  pub restored : List Text
  pub dropped : List (Text × Dropped)

abbrev pub noted : ℕ → Text → Option Session × Option Dropped → Progress → Progress
noted address id (some s, why) p = record p {
  manager = record p.manager {
    heap = set_at p.manager.heap address s;
    sessions = put_session id address p.manager.sessions;
  };
  restored = p.restored ++ (id ∷ []);
}
noted address id (none, some why) p = record p { dropped = p.dropped ++ ((id, why) ∷ []) }
noted address id (none, none) p = p

-- The loop; the sessions are made at the addresses from `address` on.
unfoldable pub restore_rooms :
    ℕ → (ActiveRoom → Answers) → ℕ → List ActiveRoom → Progress → Progress
unfolding restore_room put_session
restore_rooms now answers address [] p = p
restore_rooms now answers address (r ∷ rs) p =
    restore_rooms now answers (suc address) rs
      (noted address r.agent_id (restore_room now (answers r) r) p)

-- `restore`
unfoldable pub restore : ℕ → (ActiveRoom → Answers) → ℕ → List ActiveRoom → Manager → Progress
unfolding restore_rooms persist_rooms
restore now answers address rooms m =
    let p =
      restore_rooms now answers address rooms
        (record { manager = m; restored = []; dropped = [] }) in
    record p { manager = persist_rooms now p.manager }

-- What a room must have to come back.
abbrev has_password : ActiveRoom → Bool
has_password r = elim r.room_password [ none ↦ false | some p ↦ not (is_empty p) ]

abbrev pub is_some {ℓ} : {A : Type ℓ} → Option A → Bool
is_some none = false
is_some (some x) = true

abbrev pub is_restorable : Answers → ActiveRoom → Bool
is_restorable a r =
    a.room_exists
    && a.has_profile
    && not (is_empty r.subscriber_jwt)
    && (not a.jwt_expires_soon || is_some a.refreshed_jwt)
    && has_password r

abbrev pub One : Bool → Option Session × Option Dropped → Type 0
One b c = (is_some c.0 ≡ b) × (is_some c.1 ≡ not b)

with_password-One : (now : ℕ) (r : ActiveRoom) → One (has_password r) (with_password now r)
with_password-One now r = (ground arith, ground arith)

pub restore_room-One :
    (now : ℕ) (a : Answers) (r : ActiveRoom) → One (is_restorable a r) (restore_room now a r)
unfolding restore_room
restore_room-One now a r = (ground arith, ground arith)
