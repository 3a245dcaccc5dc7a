-- ===== src/Examples/Chats.antt =====
-- The sessions of agent rooms at concrete inputs.
use hisohiso.Prelude.{
  ℕ, ◌+◌, ◌≤◌, ◌≡◌, refl, Bool, true, false, Option, none, some, List, [], ◌∷◌, ◌++◌, filter,
  length, All, leb, arith,
}
use Prim.Native.Nat.{min}
use hisohiso.Prelude.Sorted.{count}
use hisohiso.Text.{Text, units, text_eq}
use hisohiso.Agents.Ledger.{Entry, has_msg, is_fresh, prune_seen_msg_ids, seen_msg_max}
use hisohiso.Agents.Newest.{prune_seen_msg_ids_newest}
use hisohiso.Agents.Session.{Session, ActiveRoom, attach, saved, or_else}
use hisohiso.Agents.Output.{Parsed, TurnEnd, streamed, threw, Sent, post_all, reply_messages}
use hisohiso.Agents.Chunks.{joined, post_all-reply_messages}
use hisohiso.Agents.Chat.{Event, Room, attached, on_chat, opened}
use hisohiso.Agents.Queue.{
  here, Opened, messages, Batch, members, turns_of, is_some, chat_step, open_step, Reach, start,
  next,
}
use hisohiso.Agents.Settled.{Reach-in_order, Reach-settled, settled}
use hisohiso.Agents.Once.{one_if, times_opened, Reach-once}
use hisohiso.Agents.Restart.{on_chat-attach-saved}

abbrev room : ActiveRoom
room = record {
  agent_id = units "a1";
  name = units "claude";
  room_hash = units "h";
  room_secret = units "s";
  room_password = some (units "1234");
  participant_token = units "t";
  subscriber_jwt = units "j";
  session_id = none;
  bound = some true;
  bound_pubkey = some (units "k");
  seen_msg_ids = some (record { msg_id = units "old"; first_seen = 900 } ∷ []);
}

abbrev parse : Text → Option Parsed
parse t = none

abbrev own : Text
own = units "me"

abbrev at_start : Room
at_start = attached own (attach 1000 (units "1234") room)

abbrev first : Event
first = record { from = some (units "phone"); msg_id = units "m1" }

abbrev second : Event
second = record { from = some (units "phone"); msg_id = units "m2" }

-- A message that starts a turn, and one that is queued while it runs.
abbrev busy : Room
busy =
    opened true second [] (some (units "and stop"))
      (on_chat 2000 second (opened true first [] (some (units "go")) (on_chat 1500 first at_start)))

abbrev both : List Opened
both =
    record { msg_id = units "m1"; message = record { text = units "go"; from = units "phone" } }
    ∷ record {
      msg_id = units "m2";
      message = record { text = units "and stop"; from = units "phone" };
    }
    ∷ []

abbrev busy-Reach : Reach parse true at_start busy both
unfolding on_chat opened text_eq has_msg attach prune_seen_msg_ids
busy-Reach =
    next
      (next
        (next (next start (chat_step 1500 first))
          (open_step true first [] (some (units "go")) here))
        (chat_step 2000 second))
      (open_step true second [] (some (units "and stop")) here)

Reach-in_order_example :
    (is_some busy.turn ≡ busy.session.running)
    × ((bs : List Batch) × (busy.turns ≡ turns_of bs)
        × (members bs ++ busy.session.pending ≡ messages both))
Reach-in_order_example = Reach-in_order parse true own 1000 (units "1234") room busy both busy-Reach

Reach-once_example :
    times_opened (units "m2") both
      + one_if (has_msg (units "m2") (prune_seen_msg_ids 1000 (or_else room.seen_msg_ids [])))
    ≤ 1
Reach-once_example =
    Reach-once parse true own 1000 (units "1234") room busy both (units "m2") busy-Reach

abbrev answered : (ℕ → Bool) × Text × TurnEnd
answered = (λ n. true, units "refused", streamed (some 0) false (units "done") (some (units "s1")))

abbrev failed : (ℕ → Bool) × Text × TurnEnd
failed = (λ n. false, units "refused", threw (units "no such command"))

abbrev idle : Room
idle = settled parse true own 1000 (units "1234") room answered failed busy

Reach-settled_example :
    (idle.turn ≡ none)
    × (idle.session.running ≡ false)
    × ((bs : List Batch) × (idle.turns ≡ turns_of bs) × (members bs ≡ messages both))
unfolding on_chat opened text_eq has_msg attach prune_seen_msg_ids
Reach-settled_example =
    Reach-settled parse true own 1000 (units "1234") room busy both
      (record { text = units "go"; from = units "phone" }) answered failed busy-Reach refl

abbrev ledger : List Entry
ledger =
    record { msg_id = units "m1"; first_seen = 1500 }
    ∷ record { msg_id = units "m2"; first_seen = 2000 }
    ∷ []

abbrev running_session : Session
running_session = record (attach 1000 (units "1234") room) { seen_msg_ids = ledger }

on_chat-attach-saved_example :
    on_chat 9000 first (attached own (attach 8000 (units "1234") (saved 3000 running_session)))
    ≡ attached own (attach 8000 (units "1234") (saved 3000 running_session))
unfolding has_msg text_eq
on_chat-attach-saved_example =
    on_chat-attach-saved 3000 8000 own (units "1234") running_session first 9000 (omega arith)
      (omega arith) refl

abbrev output : Text
output = units "a reply"

abbrev reply : List Sent
reply = reply_messages (parse output) output none

post_all-reply_messages_example :
    All (λ (m : Sent). length m.text ≤ 4000) (post_all (λ n. leb n 0) 0 reply).0
    × ((rest : Text) × (joined (post_all (λ n. leb n 0) 0 reply).0 ++ rest ≡ output)
        × ((post_all (λ n. leb n 0) 0 reply).1 ≡ true → rest ≡ []))
post_all-reply_messages_example = post_all-reply_messages (λ n. leb n 0) (parse output) output none

abbrev day_later : ℕ
day_later = 86401600

prune_seen_msg_ids_newest_example :
    (dropped : List Entry) × (length (prune_seen_msg_ids day_later ledger)
      ≡ min seen_msg_max (length (filter (is_fresh day_later) ledger)))
    × ((p : Entry → Bool)
        → count p (prune_seen_msg_ids day_later ledger ++ dropped)
          ≡ count p (filter (is_fresh day_later) ledger))
    × All
        (λ (e : Entry). All (λ (f : Entry). f.first_seen ≤ e.first_seen) dropped)
        (prune_seen_msg_ids day_later ledger)
prune_seen_msg_ids_newest_example = prune_seen_msg_ids_newest day_later ledger
