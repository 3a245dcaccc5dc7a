-- ===== src/Agents/Queue.antt =====
-- cli/src/daemon/agent-manager.ts: every interleaving of a room's events, decryptions and ends of
-- turns, against the list of the messages that were opened.
use hisohiso.Prelude.{
  ℕ, ◌≡◌, refl, sym, ap, ◌∙◌, Bool, true, false, Option, none, some, List, [], ◌∷◌, ◌++◌, arith,
  Bool-cases, inl, inr,
}
use mathlib.Core.List.{append-nil, append_assoc}
use hisohiso.Text.{Text}
use hisohiso.Agents.Session.{Queued}
use hisohiso.Agents.Output.{Parsed, TurnEnd}
use hisohiso.Agents.Chat.{
  Event, Turn, Room, on_any_event, on_chat, sender, opened, batch_turn, drain, combined, turn_ends,
}

-- One message in decryption and the others.
pub data Split (e : Event) : List Event → List Event → Type 0 where
  here : {es : List Event} → Split e (e ∷ es) es
  there : {f : Event} {es fs : List Event} → Split e es fs → Split e (f ∷ es) (f ∷ fs)

-- A message that was opened: its id, its text and its sender.
pub record Opened : Type 0 where
  pub msg_id : Text
  pub message : Queued

abbrev pub opened_now : Event → Option Text → List Opened
opened_now e none = []
opened_now e (some t) =
    record { msg_id = e.msg_id; message = record { text = t; from = sender e.from } } ∷ []

abbrev pub messages : List Opened → List Queued
messages [] = []
messages (o ∷ os) = o.message ∷ messages os

-- Batches are not empty: a first message and the others.
abbrev pub Batch : Type 0
Batch = Queued × List Queued

abbrev pub members : List Batch → List Queued
members [] = []
members ((q, qs) ∷ bs) = (q ∷ qs) ++ members bs

abbrev pub turns_of : List Batch → List Turn
turns_of [] = []
turns_of ((q, qs) ∷ bs) = batch_turn q qs ∷ turns_of bs

abbrev pub is_some {ℓ} : {A : Type ℓ} → Option A → Bool
is_some none = false
is_some (some x) = true

module _ (parse : Text → Option Parsed) (keeps : Bool) where
  -- A step of the room, and the messages that it opens.
  pub data Step (r : Room) : Room → List Opened → Type 0 where
    any_step : (now : ℕ) → Step r (on_any_event now r) []
    chat_step : (now : ℕ) (e : Event) → Step r (on_chat now e r) []
    open_step :
        (relay : Bool) (e : Event) (others : List Event) (input : Option Text)
        → Split e r.opening others
        → Step r (opened relay e others input r) (opened_now e input)
    turn_step :
        (relay : ℕ → Bool) (refusal : Text) (end : TurnEnd) (t : Turn)
        → r.turn ≡ some t
        → Step r (turn_ends parse relay refusal keeps end r) []

  pub data Reach (r : Room) : Room → List Opened → Type 0 where
    start : Reach r r []
    next :
        {s t : Room} {log more : List Opened}
        → Reach r s log
        → Step s t more
        → Reach r t (log ++ more)

-- The turns are the batches of a part of the messages, the queue is the rest; an idle session has
-- no queue.
pub record Inv (r : Room) (log : List Queued) : Type 0 where
  pub busy : is_some r.turn ≡ r.session.running
  pub idle : r.session.running ≡ false → r.session.pending ≡ []
  pub batches : List Batch
  pub ran : r.turns ≡ turns_of batches
  pub all_kept : members batches ++ r.session.pending ≡ log

turns_of-append : (bs cs : List Batch) → turns_of (bs ++ cs) ≡ turns_of bs ++ turns_of cs
turns_of-append [] cs = refl
turns_of-append ((q, qs) ∷ bs) cs = ap (λ l. batch_turn q qs ∷ l) (turns_of-append bs cs)

members-append : (bs cs : List Batch) → members (bs ++ cs) ≡ members bs ++ members cs
members-append [] cs = refl
members-append ((q, qs) ∷ bs) cs =
    ap (λ l. (q ∷ qs) ++ l) (members-append bs cs)
    ∙ sym (append_assoc (q ∷ qs) (members bs) (members cs))

members-snoc :
    (bs : List Batch) (q : Queued) (qs : List Queued)
    → members (bs ++ ((q, qs) ∷ [])) ++ [] ≡ members bs ++ (q ∷ qs)
members-snoc bs q qs =
    append-nil _
    ∙ members-append bs ((q, qs) ∷ [])
    ∙ ap (λ l. members bs ++ l) (append-nil (q ∷ qs))

pub messages-append : (xs ys : List Opened) → messages (xs ++ ys) ≡ messages xs ++ messages ys
messages-append [] ys = refl
messages-append (x ∷ xs) ys = ap (λ l. x.message ∷ l) (messages-append xs ys)

pub on_chat-Inv :
    (now : ℕ) (e : Event) (r : Room) (log : List Queued) → Inv r log → Inv (on_chat now e r) log
unfolding on_chat
on_chat-Inv now e r log inv = record {
  busy = ground (arith, inv.busy);
  idle = ground (arith, inv.idle);
  batches = inv.batches;
  ran = ground (arith, inv.ran);
  all_kept = ground (arith, inv.all_kept);
}

snoc_message :
    (done waiting log : List Queued) (q : Queued)
    → done ++ waiting ≡ log
    → done ++ (waiting ++ (q ∷ [])) ≡ log ++ (q ∷ [])
snoc_message done waiting log q h =
    sym (append_assoc done waiting (q ∷ [])) ∙ ap (λ l. l ++ (q ∷ [])) h

first_batch :
    (bs : List Batch) (waiting log : List Queued) (q : Queued)
    → waiting ≡ []
    → members bs ++ waiting ≡ log
    → members (bs ++ ((q, []) ∷ [])) ++ waiting ≡ log ++ (q ∷ [])
first_batch bs waiting log q none_wait h = rw none_wait (
    members-snoc bs q []
    ∙ ap (λ l. l ++ (q ∷ [])) (sym (append-nil (members bs)) ∙ (rw none_wait at h)))

pub opened-Inv :
    (relay : Bool) (e : Event) (others : List Event) (input : Option Text) (r : Room)
    (log : List Queued)
    → Inv r log
    → Inv (opened relay e others input r) (log ++ messages (opened_now e input))
unfolding opened combined
opened-Inv relay e others none r log inv = record {
  busy = inv.busy;
  idle = inv.idle;
  batches = inv.batches;
  ran = inv.ran;
  all_kept = inv.all_kept ∙ sym (append-nil log);
}
opened-Inv relay e others (some text) r log inv =
    let q : Queued = record { text = text; from = sender e.from } in
    elim (Bool-cases r.session.running) [
      | inl on ↦ rw on (record {
        busy = inv.busy ∙ on;
        idle = λ off. absurd (cc (on, off));
        batches = inv.batches;
        ran = inv.ran;
        all_kept = snoc_message (members inv.batches) r.session.pending log q inv.all_kept;
      })
      | inr off ↦ rw off (record {
        busy = refl;
        idle = λ bad. absurd (cc (bad));
        batches = inv.batches ++ ((q, []) ∷ []);
        ran =
            ap (λ l. l ++ (batch_turn q [] ∷ [])) inv.ran
            ∙ sym (turns_of-append inv.batches ((q, []) ∷ []));
        all_kept = first_batch inv.batches r.session.pending log q (inv.idle off) inv.all_kept;
      })
    ]

pub drain-Inv :
    (r : Room) (log waiting : List Queued)
    → waiting ≡ r.session.pending
    → r.session.running ≡ true
    → Inv r log
    → Inv (drain waiting r) log
unfolding drain
drain-Inv r log [] e on inv = record {
  busy = refl;
  idle = λ off. sym e;
  batches = inv.batches;
  ran = inv.ran;
  all_kept = inv.all_kept;
}
drain-Inv r log (q ∷ qs) e on inv = record {
  busy = sym on;
  idle = λ off. refl;
  batches = inv.batches ++ ((q, qs) ∷ []);
  ran =
      ap (λ l. l ++ (batch_turn q qs ∷ [])) inv.ran
      ∙ sym (turns_of-append inv.batches ((q, qs) ∷ []));
  all_kept = members-snoc inv.batches q qs ∙ ap (λ l. members inv.batches ++ l) e ∙ inv.all_kept;
}
