-- ===== src/Agents/Chat.antt =====
-- cli/src/daemon/agent-manager.ts: the handlers of a room's events and the loop that drains the
-- queue.
--
-- The event stream calls its handlers without waiting for them, so a handler's `await` of the
-- decryption and the turn that it awaits are points where other events come in: `on_chat` is the
-- part before the decryption, `opened` the part up to the turn, `turn_ends` the return of `runTurn`
-- into the loop.
use hisohiso.Prelude.{
  ℕ, Bool, true, false, Option, none, some, List, [], ◌∷◌, ◌++◌, if◌then◌else◌, length,
}
use hisohiso.Text.{Text, units, text_eq, show}
use hisohiso.Message.Envelope.{is_empty}
use hisohiso.Agents.Ledger.{has_msg, set_msg}
use hisohiso.Agents.Session.{Session, Queued}
use hisohiso.Agents.Output.{Parsed, Sent, plain, TurnEnd, finish_turn}

-- A chat event, less its payload; `body.msg_id` that is absent reads as the empty text.
pub record Event : Type 0 where
  pub from : Option Text
  pub msg_id : Text

-- A call of `runTurn`.
pub record Turn : Type 0 where
  pub text : Text
  pub from : Text

-- A session with the handlers in flight: the messages in decryption, the turn that runs, the calls
-- of `runTurn` so far, the messages sent to the room and the urgencies of the pushes (true is high).
pub record Room : Type 0 where
  pub session : Session
  pub own_token_hash : Text
  pub opening : List Event
  pub turn : Option Turn
  pub turns : List Turn
  pub sent : List Sent
  pub pushes : List Bool

-- The room after `attachToRoom`.
abbrev pub attached : Text → Session → Room
attached hash s = record {
  session = s;
  own_token_hash = hash;
  opening = [];
  turn = none;
  turns = [];
  sent = [];
  pushes = [];
}

abbrev pub is_own : Option Text → Text → Bool
is_own none hash = false
is_own (some from) hash = text_eq from hash

-- `onAnyEvent`
abbrev pub on_any_event : ℕ → Room → Room
on_any_event now r = record r { session = record r.session { last_event_at = now } }

-- `onChat`, up to the decryption.
unfoldable pub on_chat : ℕ → Event → Room → Room
on_chat now e r =
    if is_own e.from r.own_token_hash
    then r
    else if is_empty e.msg_id
    then r
    else if has_msg e.msg_id r.session.seen_msg_ids
    then r
    else record r {
      session = record r.session { seen_msg_ids = set_msg e.msg_id now r.session.seen_msg_ids };
      opening = r.opening ++ (e ∷ []);
    }

-- `event.from || 'unknown'`
abbrev pub sender : Option Text → Text
sender none = units "unknown"
sender (some []) = units "unknown"
sender (some (c ∷ cs)) = c ∷ cs

-- The call of `runTurn`, with its first assignment.
abbrev pub run_turn : Turn → Room → Room
run_turn t r = record r {
  session = record r.session { last_reply_needs_attention = false };
  turn = some t;
  turns = r.turns ++ (t ∷ []);
}

abbrev pub queued_notice : ℕ → Text
queued_notice n =
    units "📥 Queued — will run after the current turn (" ++ (show n ++ units " pending).")

-- `onChat` after the decryption of the event `e`, whose turn input is `input` (none: it failed);
-- `others` are the messages still in decryption.
unfoldable pub opened : Bool → Event → List Event → Option Text → Room → Room
opened relay e others none r = record r { opening = others }
opened relay e others (some text) r =
    let s = r.session in
    if s.running
    then (let pending = s.pending ++ (record { text = text; from = sender e.from } ∷ []) in
        record r {
          session = record s { pending = pending };
          opening = others;
          sent = r.sent ++ (if relay then plain (queued_notice (length pending)) ∷ [] else []);
        })
    else run_turn (record { text = text; from = sender e.from })
        (record r { session = record s { running = true }; opening = others })

-- `batch.map(p => p.text).join('\n\n')`
unfoldable pub combined : List Queued → Text
combined [] = []
combined (q ∷ []) = q.text
combined (q ∷ p ∷ qs) = q.text ++ (10 ∷ 10 ∷ combined (p ∷ qs))

abbrev pub batch_turn : Queued → List Queued → Turn
batch_turn q qs = record { text = combined (q ∷ qs); from = q.from }

-- The loop after a turn: the whole queue becomes one turn, or the session is idle and the phone is
-- notified.
unfoldable pub drain : List Queued → Room → Room
drain [] r = record r {
  session = record r.session { running = false };
  turn = none;
  pushes = r.pushes ++ (r.session.last_reply_needs_attention ∷ []);
}
drain (q ∷ qs) r =
    run_turn (batch_turn q qs) (record r { session = record r.session { pending = [] } })

-- The end of the running turn, and the loop's next round.
unfoldable pub turn_ends : (Text → Option Parsed) → (ℕ → Bool) → Text → Bool → TurnEnd → Room → Room
unfolding drain
turn_ends parse relay refusal keeps end r =
    let (s, out) = finish_turn parse relay refusal keeps end r.session in
    drain s.pending (record r { session = s; sent = r.sent ++ out })
