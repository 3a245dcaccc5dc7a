-- ===== src/Agents/Once.antt =====
-- cli/src/daemon/agent-manager.ts: the ledger of message ids against the messages that were opened.
use hisohiso.Prelude.{
  ℕ, ◌+◌, ◌≤◌, ◌≡◌, refl, sym, ap, ◌∙◌, Bool, false, ◌||◌, Option, none, some, List, [], ◌∷◌, ◌++◌,
  if◌then◌else◌, arith, Bool-cases, inl, inr,
}
use hisohiso.Text.{Text, text_eq}
use hisohiso.Text.Laws.{text_eq_iff}
use hisohiso.Message.Envelope.{is_empty}
use hisohiso.Agents.Ledger.{Entry, has_msg, set_msg, prune_seen_msg_ids}
use hisohiso.Agents.Session.{Queued, ActiveRoom, attach, or_else}
use hisohiso.Agents.Output.{Parsed, TurnEnd, finish_turn}
use hisohiso.Agents.Turns.{finish_turn-Same}
use hisohiso.Agents.Chat.{Event, Room, attached, is_own, on_chat, opened, drain, turn_ends}
use hisohiso.Agents.Queue.{
  Split, here, there, Opened, opened_now, Step, any_step, chat_step, open_step, turn_step, Reach,
  start, next,
}

abbrev pub one_if : Bool → ℕ
one_if b = if b then 1 else 0

-- How many of the messages in decryption, and of those opened, have an id.
abbrev times_opening : Text → List Event → ℕ
times_opening id [] = 0
times_opening id (e ∷ es) = one_if (text_eq e.msg_id id) + times_opening id es

abbrev pub times_opened : Text → List Opened → ℕ
times_opened id [] = 0
times_opened id (o ∷ os) = one_if (text_eq o.msg_id id) + times_opened id os

times_opening-append :
    (id : Text) (es fs : List Event)
    → times_opening id (es ++ fs) ≡ times_opening id es + times_opening id fs
times_opening-append id [] fs = omega arith
times_opening-append id (e ∷ es) fs = omega (arith, times_opening-append id es fs)

times_opened-append :
    (id : Text) (xs ys : List Opened)
    → times_opened id (xs ++ ys) ≡ times_opened id xs + times_opened id ys
times_opened-append id [] ys = omega arith
times_opened-append id (x ∷ xs) ys = omega (arith, times_opened-append id xs ys)

times_opening-Split :
    (id : Text) (e : Event) {es fs : List Event}
    → Split e es fs
    → times_opening id es ≡ one_if (text_eq e.msg_id id) + times_opening id fs
times_opening-Split id e here = refl
times_opening-Split id e (there s) = omega (arith, times_opening-Split id e s)

has_msg-append :
    (id : Text) (es fs : List Entry) → has_msg id (es ++ fs) ≡ (has_msg id es || has_msg id fs)
unfolding has_msg
has_msg-append id [] fs = refl
has_msg-append id (e ∷ es) fs = ground (arith, has_msg-append id es fs)

-- Each id of the ledger stands for at most one message, and for none if the ledger was given it at
-- the start.
abbrev Inv : List Entry → Room → List Opened → Text → Type 0
Inv seed r log id =
    times_opening id r.opening + times_opened id log + one_if (has_msg id seed)
    ≤ one_if (has_msg id r.session.seen_msg_ids)

arrive :
    (id : Text) (now : ℕ) (e : Event) (opening : List Event) (ledger : List Entry)
    (opened seeded : ℕ)
    → has_msg e.msg_id ledger ≡ false
    → times_opening id opening + opened + seeded ≤ one_if (has_msg id ledger)
    → times_opening id (opening ++ (e ∷ [])) + opened + seeded
      ≤ one_if (has_msg id (set_msg e.msg_id now ledger))
unfolding has_msg
arrive id now e opening ledger opened seeded fresh h = elim (Bool-cases (text_eq e.msg_id id)) [
  | inl same ↦
      let at_id : e.msg_id ≡ id = (text_eq_iff e.msg_id id).0 same in
      let absent : has_msg id ledger ≡ false = ap (λ t. has_msg t ledger) (sym at_id) ∙ fresh in
      ground (
        arith,
        h,
        times_opening-append id opening (e ∷ []),
        has_msg-append id ledger (record { msg_id = e.msg_id; first_seen = now } ∷ []),
      )
  | inr other ↦ ground (
    arith,
    h,
    times_opening-append id opening (e ∷ []),
    has_msg-append id ledger (record { msg_id = e.msg_id; first_seen = now } ∷ []),
  )
]

on_chat-Inv :
    (seed : List Entry) (now : ℕ) (e : Event) (r : Room) (log : List Opened) (id : Text)
    → Inv seed r log id
    → Inv seed (on_chat now e r) log id
unfolding on_chat
on_chat-Inv seed now e r log id inv = elim (Bool-cases (is_own e.from r.own_token_hash)) [
  | inl own ↦ rw own inv
  | inr other ↦ elim (Bool-cases (is_empty e.msg_id)) [
    | inl blank ↦ rw (other, blank) inv
    | inr named ↦ elim (Bool-cases (has_msg e.msg_id r.session.seen_msg_ids)) [
      | inl seen ↦ rw (other, named, seen) inv
      | inr fresh ↦
          rw (other, named, fresh)
            (arrive id now e r.opening r.session.seen_msg_ids (times_opened id log)
              (one_if (has_msg id seed)) fresh inv)
    ]
  ]
]

opened-Inv :
    (seed : List Entry) (relay : Bool) (e : Event) (others : List Event) (input : Option Text)
    (r : Room) (log : List Opened) (id : Text)
    → Split e r.opening others
    → Inv seed r log id
    → Inv seed (opened relay e others input r) (log ++ opened_now e input) id
unfolding opened
opened-Inv seed relay e others none r log id split inv =
    omega (arith, inv, times_opening-Split id e split, times_opened-append id log [])
opened-Inv seed relay e others (some text) r log id split inv =
    elim (Bool-cases r.session.running) [
      | inl on ↦ rw on omega (
        arith,
        inv,
        times_opening-Split id e split,
        times_opened-append id log (opened_now e (some text)),
      )
      | inr off ↦ rw off omega (
        arith,
        inv,
        times_opening-Split id e split,
        times_opened-append id log (opened_now e (some text)),
      )
    ]

drain-Inv :
    (seed : List Entry) (waiting : List Queued) (r : Room) (log : List Opened) (id : Text)
    → Inv seed r log id
    → Inv seed (drain waiting r) log id
unfolding drain
drain-Inv seed [] r log id inv = inv
drain-Inv seed (q ∷ qs) r log id inv = inv

module _ (parse : Text → Option Parsed) (keeps : Bool) where
  turn_ends-Inv :
      (seed : List Entry) (relay : ℕ → Bool) (refusal : Text) (end : TurnEnd) (r : Room)
      (log : List Opened) (id : Text)
      → Inv seed r log id
      → Inv seed (turn_ends parse relay refusal keeps end r) log id
  unfolding turn_ends
  turn_ends-Inv seed relay refusal end r log id inv =
      let (s, out) = finish_turn parse relay refusal keeps end r.session in
      let same = finish_turn-Same parse relay refusal keeps end r.session in
      drain-Inv seed s.pending (record r { session = s; sent = r.sent ++ out }) log id
        (omega (arith, inv, ap (λ es. one_if (has_msg id es)) same.2))

  Step-Inv :
      (seed : List Entry) {r s : Room} {more : List Opened} (log : List Opened) (id : Text)
      → Step parse keeps r s more
      → Inv seed r log id
      → Inv seed s (log ++ more) id
  Step-Inv seed {r} log id (any_step now) inv = omega (arith, inv, times_opened-append id log [])
  Step-Inv seed {r} log id (chat_step now e) inv =
      omega (arith, on_chat-Inv seed now e r log id inv, times_opened-append id log [])
  Step-Inv seed {r} log id (open_step relay e others input split) inv =
      opened-Inv seed relay e others input r log id split inv
  Step-Inv seed {r} log id (turn_step relay refusal end t e) inv =
      omega
        (arith, turn_ends-Inv seed relay refusal end r log id inv, times_opened-append id log [])

  -- From the attachment of a room on, whatever the events and in whatever order decryptions and
  -- turns end, no two opened messages have one id, and none has an id of the ledger that the room's
  -- record kept.
  pub Reach-once :
      (hash : Text) (now : ℕ) (password : Text) (room : ActiveRoom) (r : Room) (log : List Opened)
      (id : Text)
      → Reach parse keeps (attached hash (attach now password room)) r log
      → times_opened id log
          + one_if (has_msg id (prune_seen_msg_ids now (or_else room.seen_msg_ids [])))
        ≤ 1
  unfolding attach
  Reach-once hash now password room r log id reach = ground (arith, invariant reach)
    where
      invariant :
          {r : Room} {log : List Opened}
          → Reach parse keeps (attached hash (attach now password room)) r log
          → Inv (prune_seen_msg_ids now (or_else room.seen_msg_ids [])) r log id
      invariant start = omega arith
      invariant (next {log = log} reach step) =
          Step-Inv (prune_seen_msg_ids now (or_else room.seen_msg_ids [])) log id step
            (invariant reach)
