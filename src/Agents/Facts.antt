-- ===== src/Agents/Facts.antt =====
-- cli/src/daemon/agent-manager.ts: every interleaving of knocks, operator's answers, answers of the
-- relay and ends of sessions, with what happened in it.
use hisohiso.Prelude.{
  ℕ, ◌≡◌, Bool, true, false, ◌&&◌, ◌||◌, Option, none, some, List, [], ◌∷◌, ◌++◌, if◌then◌else◌,
  filter, arith, Bool-cases, inl, inr,
}
use hisohiso.Text.{Text, text_eq, trim}
use hisohiso.Agents.Manager.{
  PendingKnock, Cause, first_device, same_device, operator, Approval, Manager, close_session,
  on_destroy,
}
use hisohiso.Agents.Knock.{
  Knock, key_of, Parked, knock_at, set_knock, approve_done, on_knock, resolve_agent_knock,
}

-- What happened that can let a device in: a knock, with the manager's knock message at that time, and
-- a tap on approve for the knock parked under a key.
pub data Fact : Type 0 where
  knocked : (secret : Text) (k : Knock) → Fact
  confirmed : (key : Text) → Fact

abbrev pub is_that : Text → Option Text → Bool
is_that t none = false
is_that t (some u) = text_eq u t

abbrev pub says : Text → Option Text → Bool
says secret none = false
says secret (some t) = text_eq (trim t) secret

-- Whether a knock came from a device under an id, with a payload that opened to the knock message.
abbrev pub did_knock : Text → Text → List Fact → Bool
did_knock p i [] = false
did_knock p i (knocked secret k ∷ fs) =
    (is_that p k.knock_pubkey && is_that i k.msg_id && says secret k.cleartext) || did_knock p i fs
did_knock p i (confirmed key ∷ fs) = did_knock p i fs

abbrev pub did_confirm : Text → List Fact → Bool
did_confirm key [] = false
did_confirm key (knocked secret k ∷ fs) = did_confirm key fs
did_confirm key (confirmed k ∷ fs) = text_eq k key || did_confirm key fs

abbrev pub cause_holds : List Fact → Cause → Bool
cause_holds log (first_device object) = true
cause_holds log same_device = true
cause_holds log (operator key) = did_confirm key log

-- The device knocked with the session's message, and the operator confirmed it where one was asked.
abbrev pub is_allowed : List Fact → Approval → Bool
is_allowed log a = did_knock a.knock_pubkey a.knock_msg_id log && cause_holds log a.cause

abbrev pub confirm_fact : Text → Bool → List Fact
confirm_fact key approve = if approve then confirmed key ∷ [] else []

pub data Waiting (a : Approval) : List Approval → List Approval → Type 0 where
  here : {xs : List Approval} → Waiting a (a ∷ xs) xs
  there : {b : Approval} {xs ys : List Approval} → Waiting a xs ys → Waiting a (b ∷ xs) (b ∷ ys)

pub data Step (m : Manager) : Manager → List Fact → Type 0 where
  knock_step :
      (now object : ℕ) (k : Knock)
      → Step m (on_knock now object k m) (knocked m.session_knock_message k ∷ [])
  resolve_step :
      (now : ℕ) (agent_id msg_id : Text) (approve : Bool)
      → Step m
          (resolve_agent_knock now agent_id msg_id approve m)
          (confirm_fact (key_of agent_id msg_id) approve)
  done_step :
      (now : ℕ) (a : Approval) (others : List Approval) (ok : Bool)
      → Waiting a m.approving others
      → Step m (approve_done now a others ok m) []
  close_step : (now : ℕ) (id : Text) → Step m (close_session now id m) []
  destroy_step : (now object : ℕ) → Step m (on_destroy now object m) []

pub data Reach (m : Manager) : Manager → List Fact → Type 0 where
  start : Reach m m []
  next :
      {s t : Manager} {log more : List Fact}
      → Reach m s log
      → Step s t more
      → Reach m t (more ++ log)

-- Every parked knock was knocked; every approval, waiting or granted, is allowed.
abbrev pub parked_ok : List Fact → PendingKnock → Bool
parked_ok log v = did_knock v.knock_pubkey v.knock_msg_id log

abbrev pub AllTrue {ℓ} : {A : Type ℓ} → (A → Bool) → List A → Type 0
AllTrue p [] = Unit
AllTrue p (x ∷ xs) = (p x ≡ true) × AllTrue p xs

pub record Inv (m : Manager) (log : List Fact) : Type 0 where
  pub parked : AllTrue (λ (e : Text × PendingKnock). parked_ok log e.1) m.pending_agent_knocks
  pub waiting : AllTrue (is_allowed log) m.approving
  pub granted : AllTrue (is_allowed log) m.admitted_devices

module _ {A : Type 0} (p : A → Bool) where
  pub AllTrue-snoc : (xs : List A) (x : A) → AllTrue p xs → p x ≡ true → AllTrue p (xs ++ (x ∷ []))
  AllTrue-snoc [] x a h = (h, tt)
  AllTrue-snoc (y ∷ xs) x a h = (a.0, AllTrue-snoc xs x a.1 h)

  pub AllTrue-filter : (q : A → Bool) (xs : List A) → AllTrue p xs → AllTrue p (filter q xs)
  AllTrue-filter q [] a = tt
  AllTrue-filter q (x ∷ xs) a = elim (Bool-cases (q x)) [
    | inl e ↦ rw e (a.0, AllTrue-filter q xs a.1)
    | inr e ↦ rw e (AllTrue-filter q xs a.1)
  ]

  pub AllTrue-map :
      (q : A → Bool) (xs : List A)
      → ((x : A) → p x ≡ true → q x ≡ true)
      → AllTrue p xs
      → AllTrue q xs
  AllTrue-map q [] f a = tt
  AllTrue-map q (x ∷ xs) f a = (f x a.0, AllTrue-map q xs f a.1)

pub AllTrue-Waiting :
    (p : Approval → Bool) (a : Approval) {xs ys : List Approval}
    → Waiting a xs ys
    → AllTrue p xs
    → (p a ≡ true) × AllTrue p ys
AllTrue-Waiting p a here h = h
AllTrue-Waiting p a (there w) h =
    let (this, rest) = AllTrue-Waiting p a w h.1 in (this, (h.0, rest))

abbrev pub AllParked : (PendingKnock → Bool) → Parked → Type 0
AllParked p = AllTrue (λ (e : Text × PendingKnock). p e.1)

pub AllParked-set_knock :
    (p : PendingKnock → Bool) (key : Text) (v : PendingKnock) (es : Parked)
    → p v ≡ true
    → AllParked p es
    → AllParked p (set_knock key v es)
unfolding set_knock
AllParked-set_knock p key v [] h a = (h, tt)
AllParked-set_knock p key v ((k, w) ∷ es) h a = elim (Bool-cases (text_eq k key)) [
  | inl e ↦ rw e (h, a.1)
  | inr e ↦ rw e (a.0, AllParked-set_knock p key v es h a.1)
]

pub knock_at-AllParked :
    (p : PendingKnock → Bool) (key : Text) (v : PendingKnock) (es : Parked)
    → knock_at key es ≡ some v
    → AllParked p es
    → p v ≡ true
unfolding knock_at
knock_at-AllParked p key v [] e a = absurd (cc (e))
knock_at-AllParked p key v ((k, w) ∷ es) e a = elim (Bool-cases (text_eq k key)) [
  | inl same ↦ ground (arith, e, same, a.0)
  | inr other ↦ knock_at-AllParked p key v es (rw other at e) a.1
]
