-- ===== src/Agents/Restored.antt =====
-- cli/src/daemon/agent-manager.ts: the sessions after `restore`.
use hisohiso.Prelude.{
  ℕ, suc, ◌+◌, ◌≡◌, refl, ap, ◌∙◌, Bool, true, false, ◌&&◌, ◌||◌, Option, none, some, List, [], ◌∷◌,
  any, length, length-append, arith, Bool-cases, inl, inr,
}
use hisohiso.Text.{Text, text_eq}
use hisohiso.Text.Laws.{text_eq_iff}
use hisohiso.Agents.Session.{Session, ActiveRoom}
use hisohiso.Agents.Manager.{Manager, session_of, persist_rooms}
use hisohiso.Agents.Restore.{
  Answers, Dropped, restore_room, put_session, Progress, noted, restore_rooms, restore, is_some,
  is_restorable, One, restore_room-One,
}

session_of-put_session :
    (id j : Text) (a : ℕ) (es : List (Text × ℕ))
    → is_some (session_of j (put_session id a es)) ≡ (text_eq id j || is_some (session_of j es))
unfolding session_of put_session
session_of-put_session id j a [] = ground arith
session_of-put_session id j a ((k, b) ∷ es) = elim (Bool-cases (text_eq k id)) [
  | inl e ↦
      let same : text_eq k j ≡ text_eq id j = ap (λ t. text_eq t j) ((text_eq_iff k id).0 e) in
      rw (e, same) (ground arith)
  | inr e ↦ rw e (ground (arith, session_of-put_session id j a es))
]

abbrev has_session : Text → Progress → Bool
has_session j p = is_some (session_of j p.manager.sessions)

noted-known :
    (address : ℕ) (id j : Text) (b : Bool) (c : Option Session × Option Dropped) (p : Progress)
    → One b c
    → has_session j (noted address id c p) ≡ ((b && text_eq id j) || has_session j p)
noted-known address id j true (some s, why) p one =
    session_of-put_session id j address p.manager.sessions
noted-known address id j false (some s, why) p one = absurd (cc (one.0))
noted-known address id j true (none, why) p one = absurd (cc (one.0))
noted-known address id j false (none, some why) p one = refl
noted-known address id j false (none, none) p one = refl

noted-count :
    (address : ℕ) (id : Text) (b : Bool) (c : Option Session × Option Dropped) (p : Progress)
    → One b c
    → length (noted address id c p).restored + length (noted address id c p).dropped
      ≡ suc (length p.restored + length p.dropped)
noted-count address id b (some s, why) p one = omega (arith, length-append p.restored (id ∷ []))
noted-count address id b (none, some why) p one =
    omega (arith, length-append p.dropped ((id, why) ∷ []))
noted-count address id true (none, none) p one = absurd (cc (one.0))
noted-count address id false (none, none) p one = absurd (cc (one.1))

module _ (now : ℕ) (answers : ActiveRoom → Answers) where
  abbrev brings : Text → ActiveRoom → Bool
  brings j r = is_restorable (answers r) r && text_eq r.agent_id j

  restore_rooms-known :
      (j : Text) (address : ℕ) (rooms : List ActiveRoom) (p : Progress)
      → has_session j (restore_rooms now answers address rooms p)
        ≡ (any (brings j) rooms || has_session j p)
  unfolding restore_rooms
  restore_rooms-known j address [] p = refl
  restore_rooms-known j address (r ∷ rs) p =
      restore_rooms-known j (suc address) rs
        (noted address r.agent_id (restore_room now (answers r) r) p)
      ∙ ap (λ b. any (brings j) rs || b)
          (noted-known address r.agent_id j (is_restorable (answers r) r)
            (restore_room now (answers r) r) p (restore_room-One now (answers r) r))
      ∙ swap (any (brings j) rs) (brings j r) (has_session j p)
    where
      swap : (a b c : Bool) → (a || (b || c)) ≡ ((b || a) || c)
      swap a b c = ground arith

  restore_rooms-count :
      (address : ℕ) (rooms : List ActiveRoom) (p : Progress)
      → length (restore_rooms now answers address rooms p).restored
          + length (restore_rooms now answers address rooms p).dropped
        ≡ length rooms + (length p.restored + length p.dropped)
  unfolding restore_rooms
  restore_rooms-count address [] p = omega arith
  restore_rooms-count address (r ∷ rs) p = omega (
    arith,
    restore_rooms-count (suc address) rs
        (noted address r.agent_id (restore_room now (answers r) r) p),
    noted-count address r.agent_id (is_restorable (answers r) r) (restore_room now (answers r) r) p
        (restore_room-One now (answers r) r),
  )

  -- A daemon that restores with no session in its table has a session for an id afterwards exactly if
  -- a room of the file with that id can be restored: its room and its profile exist, its token is
  -- there and fresh or was refreshed, and its pairing code is there. Every room is counted once, as
  -- restored or as dropped.
  pub restore_lem :
      (j : Text) (address : ℕ) (rooms : List ActiveRoom) (m : Manager)
      → m.sessions ≡ []
      → (is_some (session_of j (restore now answers address rooms m).manager.sessions)
          ≡ any (λ (r : ActiveRoom). is_restorable (answers r) r && text_eq r.agent_id j) rooms)
        × (length (restore now answers address rooms m).restored
              + length (restore now answers address rooms m).dropped
            ≡ length rooms)
  unfolding restore persist_rooms session_of
  restore_lem j address rooms m empty =
      let start : Progress = record { manager = m; restored = []; dropped = [] } in
      let nothing : has_session j start ≡ false = ap (λ es. is_some (session_of j es)) empty in
      (
        restore_rooms-known j address rooms start ∙ ground (arith, nothing),
        omega (arith, restore_rooms-count address rooms start),
      )
