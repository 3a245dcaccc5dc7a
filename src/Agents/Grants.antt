-- ===== src/Agents/Grants.antt =====
-- cli/src/daemon/agent-manager.ts: what each step does to the knocks parked and the approvals.
use hisohiso.Prelude.{
  ℕ, ◌≡◌, refl, Bool, ◌&&◌, Option, none, some, true, false, &&-true, List, [], ◌∷◌, ◌++◌,
  if◌then◌else◌, ltb, arith, Bool-cases, Option-cases, inl, inr,
}
use mathlib.Core.List.{append-nil}
use hisohiso.Text.{Text, text_eq, trim}
use hisohiso.Text.Laws.{text_eq_refl}
use hisohiso.Agents.Session.{Session}
use hisohiso.Agents.Manager.{
  not_pending, request_expired, PendingKnock, Notice, Cause, first_device, same_device, operator,
  Approval, Manager, session_of, close_session, persist_rooms, notify,
}
use hisohiso.Agents.Knock.{
  Knock, key_of, knock_at, delete_knock, evict_expired, after_approval, approve_agent_knock,
  approve_done, is_bound_device, park, approval, authenticated, check_knock, on_knock, answer_knock,
  resolve_agent_knock,
}
use hisohiso.Agents.Facts.{
  Fact, knocked, confirmed, did_knock, cause_holds, is_allowed, confirm_fact, is_that, says,
  Waiting, parked_ok, AllTrue, Inv, AllTrue-snoc, AllTrue-filter, AllTrue-map, AllTrue-Waiting,
  AllParked-set_knock, knock_at-AllParked,
}

did_knock-grow :
    (f : Fact) (log : List Fact) (p i : Text)
    → did_knock p i log ≡ true
    → did_knock p i (f ∷ log) ≡ true
did_knock-grow (knocked secret k) log p i h = ground (arith, h)
did_knock-grow (confirmed k) log p i h = h

cause_holds-grow :
    (f : Fact) (log : List Fact) (c : Cause)
    → cause_holds log c ≡ true
    → cause_holds (f ∷ log) c ≡ true
cause_holds-grow f log (first_device object) h = refl
cause_holds-grow f log same_device h = refl
cause_holds-grow (knocked secret k) log (operator key) h = h
cause_holds-grow (confirmed k) log (operator key) h = ground (arith, h)

is_allowed-grow :
    (f : Fact) (log : List Fact) (a : Approval)
    → is_allowed log a ≡ true
    → is_allowed (f ∷ log) a ≡ true
is_allowed-grow f log a h =
    let (knock, cause) = &&-true _ _ h in
    rw
      (
        did_knock-grow f log a.knock_pubkey a.knock_msg_id knock,
        cause_holds-grow f log a.cause cause,
      )
      refl

Inv-grow : (f : Fact) (m : Manager) (log : List Fact) → Inv m log → Inv m (f ∷ log)
Inv-grow f m log inv = record {
  parked =
      AllTrue-map (λ (e : Text × PendingKnock). parked_ok log e.1)
        (λ (e : Text × PendingKnock). parked_ok (f ∷ log) e.1) m.pending_agent_knocks
        (λ e. did_knock-grow f log e.1.knock_pubkey e.1.knock_msg_id) inv.parked;
  waiting =
      AllTrue-map (is_allowed log) (is_allowed (f ∷ log)) m.approving (is_allowed-grow f log)
        inv.waiting;
  granted =
      AllTrue-map (is_allowed log) (is_allowed (f ∷ log)) m.admitted_devices (is_allowed-grow f log)
        inv.granted;
}

pub after_approval-Inv :
    (now : ℕ) (a : Approval) (ok : Bool) (m : Manager) (log : List Fact)
    → Inv m log
    → Inv (after_approval now a ok m) log
unfolding after_approval persist_rooms
after_approval-Inv now a ok m log inv = by_cause a.cause ok
  where
    by_cause : (c : Cause) (b : Bool) → Inv (after_approval now (record a { cause = c }) b m) log
    by_cause (first_device object) false = inv
    by_cause (first_device object) true = record {
      parked = inv.parked;
      waiting = inv.waiting;
      granted = inv.granted;
    }
    by_cause same_device false = inv
    by_cause same_device true = inv
    by_cause (operator key) false = record {
      parked = inv.parked;
      waiting = inv.waiting;
      granted = inv.granted;
    }
    by_cause (operator key) true = record {
      parked = inv.parked;
      waiting = inv.waiting;
      granted = inv.granted;
    }

pub approve_agent_knock-Inv :
    (now : ℕ) (a : Approval) (m : Manager) (log : List Fact)
    → is_allowed log a ≡ true
    → Inv m log
    → Inv (approve_agent_knock now a m) log
unfolding approve_agent_knock
approve_agent_knock-Inv now a m log h inv = elim (Option-cases (session_of a.agent_id m.sessions)) [
  | inl e ↦ rw (approve_agent_knock, e) (after_approval-Inv now a false m log inv)
  | inr (s, e) ↦
      rw (approve_agent_knock, e)
        (record {
          parked = inv.parked;
          waiting = AllTrue-snoc (is_allowed log) m.approving a inv.waiting h;
          granted = inv.granted;
        })
]

park-Inv :
    (now : ℕ) (s : Session) (pubkey msg_id : Text) (m : Manager) (log : List Fact)
    → did_knock pubkey msg_id log ≡ true
    → Inv m log
    → Inv (park now s pubkey msg_id m) log
unfolding park
park-Inv now s pubkey msg_id m log h inv = record {
  parked = AllParked-set_knock (parked_ok log) _ _ (evict_expired now m.pending_agent_knocks) h (
      AllTrue-filter (λ (e : Text × PendingKnock). parked_ok log e.1) _ m.pending_agent_knocks
        inv.parked);
  waiting = inv.waiting;
  granted = inv.granted;
}

authenticated-Inv :
    (now object : ℕ) (pubkey msg_id : Text) (m : Manager) (log : List Fact)
    → did_knock pubkey msg_id log ≡ true
    → Inv m log
    → Inv (authenticated now object pubkey msg_id m) log
unfolding authenticated
authenticated-Inv now object pubkey msg_id m log h inv =
    let s = m.heap object in
    elim (Bool-cases s.bound) [
      | inr unbound ↦ rw unbound (
          approve_agent_knock-Inv now (approval s pubkey msg_id (first_device object)) m log
            (rw h refl) inv)
      | inl bound ↦ elim (Bool-cases (is_bound_device pubkey s.bound_pubkey)) [
        | inl again ↦
            rw (bound, again)
              (approve_agent_knock-Inv now (approval s pubkey msg_id same_device) m log (rw h refl)
                inv)
        | inr other ↦ rw (bound, other) (park-Inv now s pubkey msg_id m log h inv)
      ]
    ]

check_knock_lem :
    (secret p i : Text) (pubkey msg_id cleartext : Option Text)
    → check_knock secret pubkey msg_id cleartext ≡ some (p, i)
    → (is_that p pubkey && is_that i msg_id && says secret cleartext) ≡ true
unfolding check_knock
check_knock_lem secret p i (some q) (some j) (some t) e =
    elim (Bool-cases (text_eq (trim t) secret)) [
      | inl same ↦
          let found : some (q, j) ≡ some (p, i) = rw same at e in
          ground (arith, same, found, text_eq_refl p, text_eq_refl i)
      | inr other ↦ absurd (cc (rw other at e))
    ]
check_knock_lem secret p i none msg_id cleartext e = absurd (cc (e))
check_knock_lem secret p i (some q) none cleartext e = absurd (cc (e))
check_knock_lem secret p i (some q) (some j) none e = absurd (cc (e))

pub on_knock-Inv :
    (now object : ℕ) (k : Knock) (m : Manager) (log : List Fact)
    → Inv m log
    → Inv (on_knock now object k m) (knocked m.session_knock_message k ∷ log)
unfolding on_knock
on_knock-Inv now object k m log inv =
    let grown = Inv-grow (knocked m.session_knock_message k) m log inv in
    elim (Option-cases (check_knock m.session_knock_message k.knock_pubkey k.msg_id k.cleartext)) [
      | inl e ↦ rw (on_knock, e) grown
      | inr ((p, i), e) ↦
          let did =
            check_knock_lem m.session_knock_message p i k.knock_pubkey k.msg_id k.cleartext e in
          rw (on_knock, e)
            (authenticated-Inv now object p i m (knocked m.session_knock_message k ∷ log)
              (rw did refl) grown)
    ]

answer_knock-Inv :
    (now : ℕ) (key agent_id : Text) (v : PendingKnock) (approve : Bool) (m : Manager)
    (log : List Fact)
    → parked_ok log v ≡ true
    → Inv m log
    → Inv (answer_knock now key agent_id v approve m) (confirm_fact key approve ++ log)
answer_knock-Inv now key agent_id v false m log h inv = record {
  parked = inv.parked;
  waiting = inv.waiting;
  granted = inv.granted;
}
answer_knock-Inv now key agent_id v true m log h inv =
    approve_agent_knock-Inv now _ m (confirmed key ∷ log) (rw (h, text_eq_refl key) refl)
      (Inv-grow (confirmed key) m log inv)

confirm_fact-Inv :
    (key : Text) (approve : Bool) (m : Manager) (log : List Fact)
    → Inv m log
    → Inv m (confirm_fact key approve ++ log)
confirm_fact-Inv key false m log inv = inv
confirm_fact-Inv key true m log inv = Inv-grow (confirmed key) m log inv

pub notify-Inv : (n : Notice) (m : Manager) (log : List Fact) → Inv m log → Inv (notify n m) log
notify-Inv n m log inv = record {
  parked = inv.parked;
  waiting = inv.waiting;
  granted = inv.granted;
}

delete_knock-Inv :
    (key : Text) (m : Manager) (log : List Fact)
    → Inv m log
    → Inv (record m { pending_agent_knocks = delete_knock key m.pending_agent_knocks }) log
delete_knock-Inv key m log inv = record {
  parked =
      AllTrue-filter (λ (e : Text × PendingKnock). parked_ok log e.1) _ m.pending_agent_knocks
        inv.parked;
  waiting = inv.waiting;
  granted = inv.granted;
}

pub resolve_agent_knock-Inv :
    (now : ℕ) (agent_id msg_id : Text) (approve : Bool) (m : Manager) (log : List Fact)
    → Inv m log
    → Inv
        (resolve_agent_knock now agent_id msg_id approve m)
        (confirm_fact (key_of agent_id msg_id) approve ++ log)
unfolding resolve_agent_knock
resolve_agent_knock-Inv now agent_id msg_id approve m log inv =
    let key = key_of agent_id msg_id in
    let n = record m { pending_agent_knocks = delete_knock key m.pending_agent_knocks } in
    elim (Option-cases (knock_at key m.pending_agent_knocks)) [
      | inl e ↦
          rw (resolve_agent_knock, e)
            (confirm_fact-Inv key approve (notify not_pending m) log
              (notify-Inv not_pending m log inv))
      | inr (v, e) ↦ elim (Bool-cases (ltb v.expires_at now)) [
        | inl late ↦
            rw (resolve_agent_knock, e, late)
              (confirm_fact-Inv key approve (notify request_expired n) log
                (notify-Inv request_expired n log (delete_knock-Inv key m log inv)))
        | inr timely ↦
            rw (resolve_agent_knock, e, timely)
              (answer_knock-Inv now key agent_id v approve n log
                (knock_at-AllParked (parked_ok log) key v m.pending_agent_knocks e inv.parked)
                (delete_knock-Inv key m log inv))
      ]
    ]

pub close_session-Inv :
    (now : ℕ) (id : Text) (m : Manager) (log : List Fact)
    → Inv m log
    → Inv (close_session now id m) log
unfolding close_session persist_rooms
close_session-Inv now id m log inv = elim (Option-cases (session_of id m.sessions)) [
  | inl e ↦ rw (close_session, e) inv
  | inr (a, e) ↦
      rw (close_session, e)
        (record { parked = inv.parked; waiting = inv.waiting; granted = inv.granted })
]

pub approve_done-Inv :
    (now : ℕ) (a : Approval) (others : List Approval) (ok : Bool) (m : Manager) (log : List Fact)
    → Waiting a m.approving others
    → Inv m log
    → Inv (approve_done now a others ok m) log
unfolding approve_done
approve_done-Inv now a others ok m log w inv =
    let (this, rest) = AllTrue-Waiting (is_allowed log) a w inv.waiting in
    after_approval-Inv now a ok _ log
      (record { parked = inv.parked; waiting = rest; granted = granted ok this })
  where
    granted :
        (b : Bool)
        → is_allowed log a ≡ true
        → AllTrue (is_allowed log) (m.admitted_devices ++ (if b then a ∷ [] else []))
    granted true this = AllTrue-snoc (is_allowed log) m.admitted_devices a inv.granted this
    granted false this = rw (append-nil m.admitted_devices) inv.granted
