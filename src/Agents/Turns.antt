-- ===== src/Agents/Turns.antt =====
-- cli/src/daemon/agent-manager.ts: what a turn leaves of its session: the queue, the flag and the
-- ledger are the handlers' alone.
use hisohiso.Prelude.{
  ℕ, ◌≡◌, refl, Bool, true, false, Option, none, some, List, arith, Bool-cases, inl, inr,
}
use hisohiso.Text.{Text, units, trim}
use hisohiso.Agents.Session.{Session}
use hisohiso.Agents.Output.{
  or_text, Parsed, Sent, TurnEnd, streamed, buffered, threw, finish_turn, send_agent_output,
  renewed, streamed_tail, buffered_tail, title_of, is_new_title,
}

abbrev pub Same : Session → Session → Type 0
Same s t = (t.pending ≡ s.pending) × (t.running ≡ s.running) × (t.seen_msg_ids ≡ s.seen_msg_ids)

renewed-Same : (keeps : Bool) (id : Option Text) (s : Session) → Same s (renewed keeps id s)
renewed-Same keeps none s = (refl, refl, refl)
renewed-Same keeps (some id) s = (ground arith, ground arith, ground arith)

send_agent_output-Same :
    (parse : Text → Option Parsed) (relay : ℕ → Bool) (output : Text) (base s : Session)
    → Same base s
    → Same base (send_agent_output parse relay output s).0
unfolding send_agent_output
send_agent_output-Same parse relay output base s h =
    elim (Bool-cases (is_new_title (title_of (parse output)) s.last_title)) [
      | inl e ↦ rw e h
      | inr e ↦ rw e h
    ]

streamed_tail-Same :
    (relay : ℕ → Bool) (refusal : Text) (failing : Bool) (code : Option ℕ) (text : Text)
    (s : Session) (x : Session × List Sent × Bool × Bool)
    → Same s x.0
    → Same s (streamed_tail relay refusal failing code text x).0
streamed_tail-Same relay refusal failing code text s (t, out, true, attention) h = h
streamed_tail-Same relay refusal failing code text s (t, out, false, attention) h = h

buffered_tail-Same :
    (relay : ℕ → Bool) (refusal : Text) (failing : Bool) (code : Option ℕ) (s : Session)
    (x : Session × List Sent × Bool × Bool)
    → Same s x.0
    → Same s (buffered_tail relay refusal failing code x).0
buffered_tail-Same relay refusal failing code s (t, out, true, attention) h =
    (ground (arith, h.0), ground (arith, h.1), ground (arith, h.2))
buffered_tail-Same relay refusal failing code s (t, out, false, attention) h = h

pub finish_turn-Same :
    (parse : Text → Option Parsed) (relay : ℕ → Bool) (refusal : Text) (keeps : Bool)
    (end : TurnEnd) (s : Session)
    → Same s (finish_turn parse relay refusal keeps end s).0
unfolding finish_turn
finish_turn-Same parse relay refusal keeps (streamed code is_error text id) s =
    let reply = or_text (trim text) (units "(no output)") in
    streamed_tail-Same relay refusal _ code _ s
      (send_agent_output parse relay reply (renewed keeps id s))
      (send_agent_output-Same parse relay reply s (renewed keeps id s) (renewed-Same keeps id s))
finish_turn-Same parse relay refusal keeps (buffered code text id stderr) s =
    let reply = trim (or_text text (or_text stderr (units "(no output)"))) in
    buffered_tail-Same relay refusal _ code s
      (send_agent_output parse relay reply (renewed keeps id s))
      (send_agent_output-Same parse relay reply s (renewed keeps id s) (renewed-Same keeps id s))
finish_turn-Same parse relay refusal keeps (threw message) s = (refl, refl, refl)
