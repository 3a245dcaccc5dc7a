-- ===== src/Agents/Table.antt =====
-- cli/src/daemon/agent-manager.ts: the table of sessions after sessions are closed.
use hisohiso.Prelude.{
  ℕ, suc, ◌+◌, ◌≡◌, refl, sym, ap, ◌∙◌, Bool, true, false, not, ◌&&◌, none, some, List, [], ◌∷◌,
  if◌then◌else◌, any, filter, length, arith, Bool-cases, Option-cases, inl, inr,
}
use hisohiso.Text.{Text, text_eq}
use hisohiso.Text.Laws.{text_eq_iff, text_eq_refl}
use hisohiso.Agents.Manager.{
  Manager, session_of, close_session, persist_rooms, RoomStatus, gone, alive, unknown,
  reconcile_answer, reconcile_all, Summary, tally,
}

abbrev Sessions : Type 0
Sessions = List (Text × ℕ)

abbrev without : Text → Sessions → Sessions
without id = filter (λ (e : Text × ℕ). not (text_eq e.0 id))

session_of-without :
    (id j : Text) (es : Sessions)
    → session_of j (without id es) ≡ (if text_eq id j then none else session_of j es)
unfolding session_of
session_of-without id j [] = ground arith
session_of-without id j ((k, a) ∷ es) = elim (Bool-cases (text_eq k id)) [
  | inl e ↦
      let same : text_eq k j ≡ text_eq id j = ap (λ t. text_eq t j) ((text_eq_iff k id).0 e) in
      rw (e, same) (session_of-without id j es ∙ collapse (text_eq id j))
  | inr e ↦ rw e (elim (Bool-cases (text_eq k j)) [
    | inl this ↦
        let apart : text_eq id j ≡ false = different ((text_eq_iff k j).0 this) e in
        rw (this, apart) refl
    | inr other ↦ rw other (session_of-without id j es)
  ])
]
  where
    collapse :
        (b : Bool)
        → (if b then none else session_of j es)
          ≡ (if b then none else if b then some a else session_of j es)
    collapse true = refl
    collapse false = refl

    different : k ≡ j → text_eq k id ≡ false → text_eq id j ≡ false
    different at_j apart = elim (Bool-cases (text_eq id j)) [
      | inl same ↦
          absurd (cc (apart, (text_eq_iff k id).1 (at_j ∙ sym ((text_eq_iff id j).0 same))))
      | inr other ↦ other
    ]

session_of-close_session :
    (now : ℕ) (id j : Text) (m : Manager)
    → session_of j (close_session now id m).sessions
      ≡ (if text_eq id j then none else session_of j m.sessions)
unfolding close_session persist_rooms
session_of-close_session now id j m = elim (Option-cases (session_of id m.sessions)) [
  | inr (a, e) ↦ rw (close_session, e) (session_of-without id j m.sessions)
  | inl e ↦
      rw (close_session, e)
        (elim (Bool-cases (text_eq id j)) [
          | inl same ↦
              rw same (ap (λ t. session_of t m.sessions) (sym ((text_eq_iff id j).0 same)) ∙ e)
          | inr other ↦ rw other refl
        ])
]

close_session-none :
    (now : ℕ) (id : Text) (m : Manager)
    → session_of id m.sessions ≡ none
    → close_session now id m ≡ m
unfolding close_session
close_session-none now id m e = rw (close_session, e) refl

-- Closing a session takes its id from the table and leaves what the table holds for every other id;
-- closing it again, at any time, changes nothing.
pub close_session-twice :
    (now later : ℕ) (id j : Text) (m : Manager)
    → (session_of j (close_session now id m).sessions
        ≡ (if text_eq id j then none else session_of j m.sessions))
      × (close_session later id (close_session now id m) ≡ close_session now id m)
close_session-twice now later id j m = (
  session_of-close_session now id j m,
  close_session-none later id (close_session now id m)
      (session_of-close_session now id id m ∙ rw (text_eq_refl id) refl),
)

abbrev pub is_gone : RoomStatus → Bool
is_gone gone = true
is_gone alive = false
is_gone unknown = false

session_of-reconcile_answer :
    (now : ℕ) (id j : Text) (a : ℕ) (s : RoomStatus) (m : Manager)
    → session_of j (reconcile_answer now id a s m).sessions
      ≡ (if is_gone s && text_eq id j then none else session_of j m.sessions)
unfolding reconcile_answer
session_of-reconcile_answer now id j a gone m = session_of-close_session now id j m
session_of-reconcile_answer now id j a alive m = refl
session_of-reconcile_answer now id j a unknown m = refl

abbrev has_id : Text → Sessions → Bool
has_id j = any (λ (e : Text × ℕ). text_eq e.0 j)

session_of-absent : (j : Text) (es : Sessions) → has_id j es ≡ false → session_of j es ≡ none
unfolding session_of
session_of-absent j [] e = refl
session_of-absent j ((k, a) ∷ es) e = ground (arith, e, session_of-absent j es)

session_of-reconcile_list :
    (now : ℕ) (status : Text → RoomStatus) (j : Text) (es : Sessions) (m : Manager)
    → session_of j (reconcile_all now status es m).0.sessions
      ≡ (if is_gone (status j) && has_id j es then none else session_of j m.sessions)
unfolding reconcile_all
session_of-reconcile_list now status j [] m = elim (Bool-cases (is_gone (status j))) [
  | inl e ↦ rw e refl
  | inr e ↦ rw e refl
]
session_of-reconcile_list now status j ((id, a) ∷ es) m =
    session_of-reconcile_list now status j es (reconcile_answer now id a (status id) m)
    ∙ ap (λ o. if is_gone (status j) && has_id j es then none else o)
        (session_of-reconcile_answer now id j a (status id) m)
    ∙ elim (Bool-cases (text_eq id j)) [
      | inl same ↦
          let at_j : status id ≡ status j = ap status ((text_eq_iff id j).0 same) in
          rw (at_j, same) (merge (is_gone (status j)) (has_id j es))
      | inr other ↦ rw other (apart (is_gone (status id)))
    ]
  where
    merge :
        (g b : Bool)
        → (if g && b then none else if g && true then none else session_of j m.sessions)
          ≡ (if g && true then none else session_of j m.sessions)
    merge true true = refl
    merge true false = refl
    merge false b = refl

    apart :
        (g : Bool)
        → (if is_gone (status j) && has_id j es
            then none
            else if g && false
            then none
            else session_of j m.sessions)
          ≡ (if is_gone (status j) && has_id j es then none else session_of j m.sessions)
    apart true = refl
    apart false = refl

reconcile_all-tally :
    (now : ℕ) (status : Text → RoomStatus) (es : Sessions) (m : Manager)
    → length (reconcile_all now status es m).1.cleaned
        + (reconcile_all now status es m).1.alive_count
        + (reconcile_all now status es m).1.unknown_count
      ≡ length es
unfolding reconcile_all
reconcile_all-tally now status [] m = omega arith
reconcile_all-tally now status ((id, a) ∷ es) m =
    counted (status id) (reconcile_all now status es (reconcile_answer now id a (status id) m)).1
      (reconcile_all-tally now status es (reconcile_answer now id a (status id) m))
  where
    counted :
        (s : RoomStatus) (t : Summary)
        → length t.cleaned + t.alive_count + t.unknown_count ≡ length es
        → length (tally id s t).cleaned + (tally id s t).alive_count + (tally id s t).unknown_count
          ≡ suc (length es)
    counted gone t e = omega (arith, e)
    counted alive t e = omega (arith, e)
    counted unknown t e = omega (arith, e)

-- Whatever the relay answers, reconciling the table takes from it exactly the ids whose rooms are
-- gone and leaves what it holds for the others, and the summary counts each session once.
pub reconcile_all-gone :
    (now : ℕ) (status : Text → RoomStatus) (j : Text) (m : Manager)
    → (session_of j (reconcile_all now status m.sessions m).0.sessions
        ≡ (if is_gone (status j) then none else session_of j m.sessions))
      × (length (reconcile_all now status m.sessions m).1.cleaned
            + (reconcile_all now status m.sessions m).1.alive_count
            + (reconcile_all now status m.sessions m).1.unknown_count
          ≡ length m.sessions)
reconcile_all-gone now status j m = (
  session_of-reconcile_list now status j m.sessions m ∙ known (is_gone (status j)),
  reconcile_all-tally now status m.sessions m,
)
  where
    known :
        (g : Bool)
        → (if g && has_id j m.sessions then none else session_of j m.sessions)
          ≡ (if g then none else session_of j m.sessions)
    known false = refl
    known true = elim (Bool-cases (has_id j m.sessions)) [
      | inl e ↦ rw e refl
      | inr e ↦ rw e (session_of-absent j m.sessions e)
    ]
