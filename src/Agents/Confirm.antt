-- ===== src/Agents/Confirm.antt =====
-- cli/src/daemon/agent-manager.ts: a parked knock and the operator's answer, and two first knocks.
use hisohiso.Prelude.{
  ℕ, ◌+◌, ◌≡◌, refl, ap, sym, ◌∙◌, Bool, true, false, ◌&&◌, none, some, [], ◌∷◌, ◌++◌,
  if◌then◌else◌, leb, ltb, arith, Bool-cases, inl, inr,
}
use mathlib.Core.List.{append-nil, append_assoc}
use hisohiso.Text.{Text, text_eq}
use hisohiso.Text.Laws.{text_eq_refl}
use hisohiso.Agents.Manager.{
  PendingKnock, first_device, operator, Approval, Manager, session_of, persist_rooms,
}
use hisohiso.Agents.Knock.{
  Knock, pending_knock_ttl_ms, key_of, Parked, knock_at, delete_knock, set_knock, evict_expired,
  approve_agent_knock, approve_done, after_approval, is_bound_device, park, approval, authenticated,
  check_knock, on_knock, answer_knock, resolve_agent_knock,
}

knock_at-set_knock :
    (key : Text) (v : PendingKnock) (es : Parked) → knock_at key (set_knock key v es) ≡ some v
unfolding knock_at set_knock
knock_at-set_knock key v [] = rw (text_eq_refl key) refl
knock_at-set_knock key v ((k, w) ∷ es) = elim (Bool-cases (text_eq k key)) [
  | inl e ↦ rw (e, e) refl
  | inr e ↦ rw (e, e) (knock_at-set_knock key v es)
]

knock_at-delete_knock : (key : Text) (es : Parked) → knock_at key (delete_knock key es) ≡ none
unfolding knock_at
knock_at-delete_knock key [] = refl
knock_at-delete_knock key ((k, w) ∷ es) = elim (Bool-cases (text_eq k key)) [
  | inl e ↦ rw e (knock_at-delete_knock key es)
  | inr e ↦ rw (e, e) (knock_at-delete_knock key es)
]

authenticated-park :
    (now object : ℕ) (p i : Text) (m : Manager)
    → (m.heap object).bound ≡ true
    → is_bound_device p (m.heap object).bound_pubkey ≡ false
    → authenticated now object p i m ≡ park now (m.heap object) p i m
unfolding authenticated
authenticated-park now object p i m bound other = rw (authenticated, bound, other) refl

on_knock-authenticated :
    (now object : ℕ) (k : Knock) (p i : Text) (m : Manager)
    → check_knock m.session_knock_message k.knock_pubkey k.msg_id k.cleartext ≡ some (p, i)
    → on_knock now object k m ≡ authenticated now object p i m
unfolding on_knock
on_knock-authenticated now object k p i m h = rw (on_knock, h) refl

approve_agent_knock-open :
    (now a : ℕ) (q : Approval) (m : Manager)
    → session_of q.agent_id m.sessions ≡ some a
    → approve_agent_knock now q m ≡ record m { approving = m.approving ++ (q ∷ []) }
unfolding approve_agent_knock
approve_agent_knock-open now a q m h = rw (approve_agent_knock, h) refl

-- The approval that the operator's answer asks for.
abbrev asked : Text → Text → PendingKnock → Approval
asked key agent_id v = record {
  agent_id = agent_id;
  knock_pubkey = v.knock_pubkey;
  knock_msg_id = v.knock_msg_id;
  cause = operator key;
}

abbrev Resolved : Text → Text → PendingKnock → Bool → Manager → Manager → Type 0
Resolved key agent_id v opens m n =
    (n.approving ≡ m.approving ++ (if opens then asked key agent_id v ∷ [] else []))
    × (knock_at key n.pending_agent_knocks ≡ none)

answer_knock-Resolved :
    (now a : ℕ) (key agent_id : Text) (v : PendingKnock) (approve : Bool) (m n : Manager)
    → session_of agent_id n.sessions ≡ some a
    → n.approving ≡ m.approving
    → knock_at key n.pending_agent_knocks ≡ none
    → Resolved key agent_id v approve m (answer_knock now key agent_id v approve n)
answer_knock-Resolved now a key agent_id v false m n h same off =
    (same ∙ sym (append-nil m.approving), off)
answer_knock-Resolved now a key agent_id v true m n h same off =
    rw (approve_agent_knock-open now a (asked key agent_id v) n h)
      (ap (λ l. l ++ (asked key agent_id v ∷ [])) same, off)

resolve-Resolved :
    (now a : ℕ) (agent_id i : Text) (v : PendingKnock) (approve : Bool) (m : Manager)
    → session_of agent_id m.sessions ≡ some a
    → knock_at (key_of agent_id i) m.pending_agent_knocks ≡ some v
    → Resolved
        (key_of agent_id i)
        agent_id
        v
        (approve && leb now v.expires_at)
        m
        (resolve_agent_knock now agent_id i approve m)
unfolding resolve_agent_knock
resolve-Resolved now a agent_id i v approve m h found =
    let key = key_of agent_id i in
    let n = record m { pending_agent_knocks = delete_knock key m.pending_agent_knocks } in
    let off = knock_at-delete_knock key m.pending_agent_knocks in
    elim (Bool-cases (ltb v.expires_at now)) [
      | inl late ↦
          let closed : leb now v.expires_at ≡ false = ground (arith, late) in
          let never : (approve && leb now v.expires_at) ≡ false = ground (arith, closed) in
          rw (resolve_agent_knock, found, late, never) (sym (append-nil m.approving), off)
      | inr timely ↦
          let open_still : leb now v.expires_at ≡ true = ground (arith, timely) in
          let same : (approve && leb now v.expires_at) ≡ approve = ground (arith, open_still) in
          rw (resolve_agent_knock, found, timely, same)
            (answer_knock-Resolved now a key agent_id v approve m n h refl off)
    ]

-- An authenticated knock of another device on a bound room, handled at `t` while the session is in
-- the table, and the operator's answer at `now`: the approval of that device is asked for exactly if
-- the answer is approve and comes within ten minutes, and no other; after the answer no knock is
-- parked under that key, so a second answer finds none.
pub resolve_agent_knock-on_knock :
    (t now object a : ℕ) (k : Knock) (p i : Text) (approve : Bool) (m : Manager)
    → check_knock m.session_knock_message k.knock_pubkey k.msg_id k.cleartext ≡ some (p, i)
    → (m.heap object).bound ≡ true
    → is_bound_device p (m.heap object).bound_pubkey ≡ false
    → session_of (m.heap object).agent_id m.sessions ≡ some a
    → ((resolve_agent_knock now
          (m.heap object).agent_id
          i
          approve
          (on_knock t object k m)).approving
        ≡ m.approving
          ++ (if approve && leb now (t + 600000)
              then approval (m.heap object) p i (operator (key_of (m.heap object).agent_id i)) ∷ []
              else []))
      × (knock_at
            (key_of (m.heap object).agent_id i)
            (resolve_agent_knock now
              (m.heap object).agent_id
              i
              approve
              (on_knock t object k m)).pending_agent_knocks
          ≡ none)
unfolding park
resolve_agent_knock-on_knock t now object a k p i approve m h bound other there =
    let s = m.heap object in
    let v : PendingKnock = record {
      agent_id = s.agent_id;
      knock_pubkey = p;
      knock_msg_id = i;
      expires_at = t + pending_knock_ttl_ms;
    } in
    let parked =
      on_knock-authenticated t object k p i m h ∙ authenticated-park t object p i m bound other in
    rw parked (
      resolve-Resolved now a s.agent_id i v approve (park t s p i m) there
        (knock_at-set_knock (key_of s.agent_id i) v (evict_expired t m.pending_agent_knocks)))

authenticated-first :
    (now object a : ℕ) (p i : Text) (m : Manager)
    → (m.heap object).bound ≡ false
    → session_of (m.heap object).agent_id m.sessions ≡ some a
    → authenticated now object p i m ≡ record m {
      approving = m.approving ++ (approval (m.heap object) p i (first_device object) ∷ []);
    }
unfolding authenticated
authenticated-first now object a p i m unbound there =
    rw (authenticated, unbound)
      (approve_agent_knock-open now a (approval (m.heap object) p i (first_device object)) m there)

-- Two authenticated knocks of any two devices that reach an unbound room, the second before the
-- relay has answered the first, are both taken for the first device: when the relay answers, both
-- are let in, the operator is asked for neither, and the room is bound to the second.
pub approve_done-two_first :
    (t u v w object a : ℕ) (k l : Knock) (p i q j : Text) (m : Manager)
    → check_knock m.session_knock_message k.knock_pubkey k.msg_id k.cleartext ≡ some (p, i)
    → check_knock m.session_knock_message l.knock_pubkey l.msg_id l.cleartext ≡ some (q, j)
    → (m.heap object).bound ≡ false
    → session_of (m.heap object).agent_id m.sessions ≡ some a
    → m.approving ≡ []
    → let x = approval (m.heap object) p i (first_device object) in
      let y = approval (m.heap object) q j (first_device object) in
      let asked_both = on_knock u object l (on_knock t object k m) in
      let both = approve_done w y [] true (approve_done v x (y ∷ []) true asked_both) in
      (asked_both.approving ≡ x ∷ y ∷ [])
      × (both.admitted_devices ≡ m.admitted_devices ++ (x ∷ y ∷ []))
      × (both.notices ≡ m.notices)
      × ((both.heap object).bound_pubkey ≡ some q)
unfolding approve_done after_approval persist_rooms
approve_done-two_first t u v w object a k l p i q j m h g unbound there idle =
    let first =
      on_knock-authenticated t object k p i m h
      ∙ authenticated-first t object a p i m unbound there in
    let n = record m {
      approving = m.approving ++ (approval (m.heap object) p i (first_device object) ∷ []);
    } in
    let second =
      on_knock-authenticated u object l q j n g
      ∙ authenticated-first u object a q j n unbound there in
    rw (first, second)
      (
        ap
            (λ xs.
              (xs ++ (approval (m.heap object) p i (first_device object) ∷ []))
              ++ (approval (m.heap object) q j (first_device object) ∷ []))
            idle,
        append_assoc m.admitted_devices (approval (m.heap object) p i (first_device object) ∷ [])
            (approval (m.heap object) q j (first_device object) ∷ []),
        refl,
        ground arith,
      )
