-- ===== src/Agents/Knock.antt =====
-- cli/src/daemon/agent-manager.ts: knocks on an agent's room, from `onKnock` to the relay's answer.
--
-- `on_knock` is the handler after the decryption, `approve_done` its rest after the relay's answer:
-- other events come in between, since the event stream does not wait for its handlers.
use hisohiso.Prelude.{
  ℕ, ◌+◌, Bool, true, false, not, Option, none, some, List, [], ◌∷◌, ◌++◌, ltb, leb, ◌&&◌,
  if◌then◌else◌, filter,
}
use hisohiso.Text.{Text, text_eq, trim}
use hisohiso.Message.Envelope.{is_empty}
use hisohiso.Agents.Session.{Session}
use hisohiso.Agents.Manager.{
  PendingKnock, asks_to_join, not_pending, request_expired, denied, admitted, not_admitted, Cause,
  first_device, same_device, operator, Approval, Manager, session_of, set_at, persist_rooms, notify,
}

-- A knock's body: the fields that are strings, and the payload's text, none where it is missing or
-- its decryption throws.
pub record Knock : Type 0 where
  pub knock_pubkey : Option Text
  pub msg_id : Option Text
  pub cleartext : Option Text

abbrev pub pending_knock_ttl_ms : ℕ
pending_knock_ttl_ms = 600000

abbrev pub key_of : Text → Text → Text
key_of agent_id knock_msg_id = agent_id ++ (58 ∷ knock_msg_id)

abbrev pub Parked : Type 0
Parked = List (Text × PendingKnock)

unfoldable pub knock_at : Text → Parked → Option PendingKnock
knock_at key [] = none
knock_at key ((k, v) ∷ rest) = if text_eq k key then some v else knock_at key rest

abbrev pub delete_knock : Text → Parked → Parked
delete_knock key = filter (λ (e : Text × PendingKnock). not (text_eq e.0 key))

-- `Map.prototype.set`: a key that is there keeps its place.
unfoldable pub set_knock : Text → PendingKnock → Parked → Parked
set_knock key v [] = (key, v) ∷ []
set_knock key v ((k, w) ∷ rest) =
    let others = set_knock key v rest in if text_eq k key then (k, v) ∷ rest else (k, w) ∷ others

abbrev pub evict_expired : ℕ → Parked → Parked
evict_expired now = filter (λ (e : Text × PendingKnock). leb now e.1.expires_at)

-- What follows `approveAgentKnock` in each of its callers.
unfoldable pub after_approval : ℕ → Approval → Bool → Manager → Manager
unfolding persist_rooms
after_approval now a false m = elim a.cause [
  | first_device object ↦ m
  | same_device ↦ m
  | operator key ↦ notify (not_admitted a.agent_id) m
]
after_approval now a true m = elim a.cause [
  | first_device object ↦ persist_rooms now (record m {
    heap =
        set_at m.heap object
          (record (m.heap object) { bound = true; bound_pubkey = some a.knock_pubkey });
  })
  | same_device ↦ m
  | operator key ↦ notify (admitted a.agent_id) m
]

-- `approveAgentKnock`, up to the relay: a closed session is not approved.
unfoldable pub approve_agent_knock : ℕ → Approval → Manager → Manager
unfolding after_approval
approve_agent_knock now a m = elim (session_of a.agent_id m.sessions) [
  | none ↦ after_approval now a false m
  | some s ↦ record m { approving = m.approving ++ (a ∷ []) }
]

-- The relay's answer; `others` are the approvals still waiting.
unfoldable pub approve_done : ℕ → Approval → List Approval → Bool → Manager → Manager
unfolding after_approval
approve_done now a others ok m = after_approval now a ok (record m {
  approving = others;
  admitted_devices = m.admitted_devices ++ (if ok then a ∷ [] else []);
})

-- `session.boundPubkey && knockPubkey === session.boundPubkey`
abbrev pub is_bound_device : Text → Option Text → Bool
is_bound_device pubkey none = false
is_bound_device pubkey (some b) = not (is_empty b) && text_eq pubkey b

unfoldable pub park : ℕ → Session → Text → Text → Manager → Manager
unfolding set_knock
park now s pubkey msg_id m = notify (asks_to_join s.name s.agent_id msg_id) (record m {
  pending_agent_knocks =
      set_knock (key_of s.agent_id msg_id)
        (record {
          agent_id = s.agent_id;
          knock_pubkey = pubkey;
          knock_msg_id = msg_id;
          expires_at = now + pending_knock_ttl_ms;
        })
        (evict_expired now m.pending_agent_knocks);
})

abbrev pub approval : Session → Text → Text → Cause → Approval
approval s pubkey msg_id c = record {
  agent_id = s.agent_id;
  knock_pubkey = pubkey;
  knock_msg_id = msg_id;
  cause = c;
}

-- A knock that passed both checks.
unfoldable pub authenticated : ℕ → ℕ → Text → Text → Manager → Manager
unfolding approve_agent_knock park
authenticated now object pubkey msg_id m =
    let s = m.heap object in
    if s.bound
    then (if is_bound_device pubkey s.bound_pubkey
        then approve_agent_knock now (approval s pubkey msg_id same_device) m
        else park now s pubkey msg_id m)
    else approve_agent_knock now (approval s pubkey msg_id (first_device object)) m

-- Whether a knock has its fields and the session's message, with its device and id.
unfoldable pub check_knock : Text → Option Text → Option Text → Option Text → Option (Text × Text)
check_knock secret (some p) (some i) (some t) =
    if text_eq (trim t) secret then some (p, i) else none
check_knock secret p i t = none

-- `onKnock` of the session object `object`.
unfoldable pub on_knock : ℕ → ℕ → Knock → Manager → Manager
unfolding authenticated
on_knock now object k m =
    elim (check_knock m.session_knock_message k.knock_pubkey k.msg_id k.cleartext) [
      | none ↦ m
      | some (p, i) ↦ authenticated now object p i m
    ]

-- A parked knock that the operator answered in time.
abbrev pub answer_knock : ℕ → Text → Text → PendingKnock → Bool → Manager → Manager
answer_knock now key agent_id pending false m = notify (denied agent_id) m
answer_knock now key agent_id pending true m =
    approve_agent_knock now
      (record {
        agent_id = agent_id;
        knock_pubkey = pending.knock_pubkey;
        knock_msg_id = pending.knock_msg_id;
        cause = operator key;
      })
      m

-- `resolveAgentKnock`
unfoldable pub resolve_agent_knock : ℕ → Text → Text → Bool → Manager → Manager
unfolding knock_at approve_agent_knock
resolve_agent_knock now agent_id knock_msg_id approve m =
    let key = key_of agent_id knock_msg_id in
    elim (knock_at key m.pending_agent_knocks) [
      | none ↦ notify not_pending m
      | some pending ↦
          let n = record m { pending_agent_knocks = delete_knock key m.pending_agent_knocks } in
          if ltb pending.expires_at now
          then notify request_expired n
          else answer_knock now key agent_id pending approve n
    ]
