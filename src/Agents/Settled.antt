-- ===== src/Agents/Settled.antt =====
-- cli/src/daemon/agent-manager.ts: the queue of a session, from its attachment on.
use hisohiso.Prelude.{
  inl, inr, ◌⊎◌, ℕ, ◌≡◌, refl, sym, ap, ◌∙◌, Bool, false, Option, none, some, List, [], ◌∷◌, ◌++◌,
}
use mathlib.Core.List.{append-nil}
use hisohiso.Text.{Text}
use hisohiso.Agents.Session.{Queued, ActiveRoom, attach}
use hisohiso.Agents.Output.{Parsed, TurnEnd, finish_turn}
use hisohiso.Agents.Turns.{finish_turn-Same}
use hisohiso.Agents.Chat.{Turn, Room, attached, drain, turn_ends, batch_turn}
use hisohiso.Agents.Queue.{
  Opened, messages, Batch, members, turns_of, is_some, Step, any_step, chat_step, open_step,
  turn_step, Reach, start, next, Inv, on_chat-Inv, opened-Inv, drain-Inv, messages-append,
}

module _ (parse : Text → Option Parsed) (keeps : Bool) where
  turn_ends-Inv :
      (relay : ℕ → Bool) (refusal : Text) (end : TurnEnd) (t : Turn) (r : Room) (log : List Queued)
      → r.turn ≡ some t
      → Inv r log
      → Inv (turn_ends parse relay refusal keeps end r) log
  unfolding turn_ends
  turn_ends-Inv relay refusal end t r log e inv =
      let s = (finish_turn parse relay refusal keeps end r.session).0 in
      let same = finish_turn-Same parse relay refusal keeps end r.session in
      let on = same.1 ∙ sym inv.busy ∙ ap is_some e in
      drain-Inv
        (record r {
          session = s;
          sent = r.sent ++ (finish_turn parse relay refusal keeps end r.session).1;
        })
        log s.pending refl on
        (record {
          busy = inv.busy ∙ sym same.1;
          idle = λ off. absurd (cc (on, off));
          batches = inv.batches;
          ran = inv.ran;
          all_kept = ap (λ l. members inv.batches ++ l) same.0 ∙ inv.all_kept;
        })

  Step-Inv :
      {r s : Room} {more : List Opened} (log : List Queued)
      → Step parse keeps r s more
      → Inv r log
      → Inv s (log ++ messages more)
  Step-Inv {r} log (any_step now) inv = record {
    busy = inv.busy;
    idle = inv.idle;
    batches = inv.batches;
    ran = inv.ran;
    all_kept = inv.all_kept ∙ sym (append-nil log);
  }
  Step-Inv {r} log (chat_step now e) inv = rw (append-nil log) (on_chat-Inv now e r log inv)
  Step-Inv {r} log (open_step relay e others input split) inv =
      opened-Inv relay e others input r log inv
  Step-Inv {r} log (turn_step relay refusal end t e) inv =
      rw (append-nil log) (turn_ends-Inv relay refusal end t r log e inv)

  module _ (hash : Text) (now : ℕ) (password : Text) (room : ActiveRoom) where
    Reach-Inv :
        {r : Room} {log : List Opened}
        → Reach parse keeps (attached hash (attach now password room)) r log
        → Inv r (messages log)
    unfolding attach
    Reach-Inv start = record {
      busy = refl;
      idle = λ off. refl;
      batches = [];
      ran = refl;
      all_kept = refl;
    }
    Reach-Inv (next {log = log} {more = more} reach step) =
        rw (messages-append log more) (Step-Inv (messages log) step (Reach-Inv reach))

    -- In whatever order the events of a room, the ends of the decryptions and the ends of the turns
    -- come in after it is attached, the texts that the agent was given are batches of the messages
    -- that were opened, each batch joined by blank lines and sent as from its first sender; the
    -- batches one after the other and then the queue are exactly those messages, in the order in
    -- which they were opened. The flag `running` is set exactly while a turn runs.
    pub Reach-in_order :
        (r : Room) (log : List Opened)
        → Reach parse keeps (attached hash (attach now password room)) r log
        → (is_some r.turn ≡ r.session.running)
          × ((bs : List Batch) × (r.turns ≡ turns_of bs)
              × (members bs ++ r.session.pending ≡ messages log))
    Reach-in_order r log reach =
        let inv = Reach-Inv reach in (inv.busy, (inv.batches, inv.ran, inv.all_kept))

    idle_after :
        (relay : ℕ → Bool) (refusal : Text) (end : TurnEnd) (r : Room)
        → r.session.pending ≡ []
        → ((turn_ends parse relay refusal keeps end r).turn ≡ none)
          × ((turn_ends parse relay refusal keeps end r).session.pending ≡ [])
    unfolding turn_ends drain
    idle_after relay refusal end r e =
        let same = finish_turn-Same parse relay refusal keeps end r.session in
        let empty : (finish_turn parse relay refusal keeps end r.session).0.pending ≡ [] =
          same.0 ∙ e in
        simp empty (refl, refl)

    ran_after :
        (relay : ℕ → Bool) (refusal : Text) (end : TurnEnd) (r : Room) (q : Queued)
        (qs : List Queued)
        → r.session.pending ≡ q ∷ qs
        → ((turn_ends parse relay refusal keeps end r).turn ≡ some (batch_turn q qs))
          × ((turn_ends parse relay refusal keeps end r).session.pending ≡ [])
    unfolding turn_ends drain
    ran_after relay refusal end r q qs e =
        let same = finish_turn-Same parse relay refusal keeps end r.session in
        let full : (finish_turn parse relay refusal keeps end r.session).0.pending ≡ q ∷ qs =
          same.0 ∙ e in
        simp full (refl, refl)

    abbrev End : Type 0
    End = (ℕ → Bool) × Text × TurnEnd

    abbrev ends : End → Room → Room
    ends e r = turn_ends parse e.0 e.1 keeps e.2 r

    -- The end of a turn that the loop started, if it did.
    abbrev next_end : End → Option Turn → Room → Room
    next_end e none r = r
    next_end e (some t) r = ends e r

    -- The end of the running turn, and of the turn that the loop starts then, if it does.
    abbrev pub settled : End → End → Room → Room
    settled first second r = next_end second (ends first r).turn (ends first r)

    -- An idle room whose agent was given every message that was opened.
    abbrev pub GivenAll : Room → List Opened → Type 0
    GivenAll r log =
        (r.turn ≡ none)
        × (r.session.running ≡ false)
        × ((bs : List Batch) × (r.turns ≡ turns_of bs) × (members bs ≡ messages log))

    given_all :
        (r : Room) (log : List Opened)
        → r.turn ≡ none
        → r.session.pending ≡ []
        → Reach parse keeps (attached hash (attach now password room)) r log
        → GivenAll r log
    given_all r log off empty reach =
        let inv = Reach-Inv reach in
        let kept : members inv.batches ++ [] ≡ messages log = rw empty at inv.all_kept in
        (
          off,
          sym inv.busy ∙ ap is_some off,
          (inv.batches, inv.ran, sym (append-nil (members inv.batches)) ∙ kept),
        )

    next_end-GivenAll :
        (e : End) (o : Option Turn) (r : Room) (log : List Opened)
        → o ≡ none
        → GivenAll r log
        → GivenAll (next_end e o r) log
    next_end-GivenAll e none r log h given = given
    next_end-GivenAll e (some t) r log h given = absurd (cc (h))

    next_end-GivenAll-some :
        (e : End) (o : Option Turn) (t : Turn) (r : Room) (log : List Opened)
        → o ≡ some t
        → GivenAll (ends e r) log
        → GivenAll (next_end e o r) log
    next_end-GivenAll-some e none t r log h given = absurd (cc (h))
    next_end-GivenAll-some e (some u) t r log h given = given

    -- From every state that a room reaches with a turn running, if nothing more comes in, the end of
    -- that turn and of at most one more, however they end, leave the session idle, and the agent was
    -- given every message that was opened.
    pub Reach-settled :
        (r : Room) (log : List Opened) (t : Turn) (first second : (ℕ → Bool) × Text × TurnEnd)
        → Reach parse keeps (attached hash (attach now password room)) r log
        → r.turn ≡ some t
        → ((settled first second r).turn ≡ none)
          × ((settled first second r).session.running ≡ false)
          × ((bs : List Batch) × ((settled first second r).turns ≡ turns_of bs)
              × (members bs ≡ messages log))
    Reach-settled r log t first second reach on =
        let after = ends first r in
        let reach_1 = next reach (turn_step first.0 first.1 first.2 t on) in
        elim (cases r.session.pending) [
          | inl e ↦
              let (off, empty) = idle_after first.0 first.1 first.2 r e in
              next_end-GivenAll second after.turn after log off
                (given_all after log off empty (rw (append-nil log) at reach_1))
          | inr (q, qs, e) ↦
              let (ran, empty) = ran_after first.0 first.1 first.2 r q qs e in
              let (off, empty_2) = idle_after second.0 second.1 second.2 after empty in
              let reach_2 =
                next reach_1 (turn_step second.0 second.1 second.2 (batch_turn q qs) ran) in
              next_end-GivenAll-some second after.turn (batch_turn q qs) after log ran (
                given_all (ends second after) log off empty_2
                  (rw (append-nil log) at rw (append-nil log) at reach_2))
        ]
      where
        cases :
            (qs : List Queued) → (qs ≡ []) ⊎ ((q : Queued) × (rest : List Queued) × (qs ≡ q ∷ rest))
        cases [] = inl refl
        cases (q ∷ qs) = inr (q, qs, refl)
