-- ===== src/Agents/Restart.antt =====
-- cli/src/daemon/agent-manager.ts: a session that is written by `persistRooms` and attached again.
use hisohiso.Prelude.{
  ◌∙◌, ℕ, ◌≤◌, ◌≡◌, refl, ap, true, List, [], ◌∷◌, filter, length, arith, length-filter-le,
}
use hisohiso.Text.{Text}
use hisohiso.Agents.Ledger.{Entry, has_msg, is_fresh, seen_msg_max, prune_seen_msg_ids}
use hisohiso.Agents.Session.{Session, attach, saved}
use hisohiso.Agents.Chat.{Event, attached, on_chat}

-- What is fresh later was fresh before.
filter-is_fresh :
    (now later : ℕ) (es : List Entry)
    → now ≤ later
    → filter (is_fresh later) (filter (is_fresh now) es) ≡ filter (is_fresh later) es
filter-is_fresh now later [] h = refl
filter-is_fresh now later (e ∷ es) h = ground (arith, filter-is_fresh now later es h)

prune_small :
    (now : ℕ) (es : List Entry)
    → length (filter (is_fresh now) es) ≤ seen_msg_max
    → prune_seen_msg_ids now es ≡ filter (is_fresh now) es
unfolding prune_seen_msg_ids
prune_small now es h = ground arith

prune_again :
    (now later : ℕ) (es : List Entry)
    → now ≤ later
    → length (filter (is_fresh now) es) ≤ seen_msg_max
    → prune_seen_msg_ids later (prune_seen_msg_ids now es) ≡ filter (is_fresh later) es
prune_again now later es h small = rw (prune_small now es small) (
    prune_small later (filter (is_fresh now) es)
      (omega (arith, small, length-filter-le (is_fresh later) (filter (is_fresh now) es)))
    ∙ filter-is_fresh now later es h)

-- A session is written at one time and attached again at a later one, as by a restart of the daemon.
-- A chat whose id the session's ledger held with a time not older than 24 hours is dropped then, if
-- no more than 500 entries were that young when the session was written.
pub on_chat-attach-saved :
    (now later : ℕ) (hash password : Text) (s : Session) (e : Event) (at_arrival : ℕ)
    → now ≤ later
    → length (filter (is_fresh now) s.seen_msg_ids) ≤ seen_msg_max
    → has_msg e.msg_id (filter (is_fresh later) s.seen_msg_ids) ≡ true
    → on_chat at_arrival e (attached hash (attach later password (saved now s)))
      ≡ attached hash (attach later password (saved now s))
unfolding on_chat attach saved
on_chat-attach-saved now later hash password s e at_arrival h small seen =
    let known : has_msg e.msg_id (prune_seen_msg_ids later (prune_seen_msg_ids now s.seen_msg_ids))
        ≡ true =
      ap (has_msg e.msg_id) (prune_again now later s.seen_msg_ids h small) ∙ seen in
    ground (arith, known)
