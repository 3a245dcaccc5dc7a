-- ===== src/Agents/Admission.antt =====
-- cli/src/daemon/agent-manager.ts: the devices that come in.
use hisohiso.Prelude.{◌≡◌, refl, true, all, List, [], ◌∷◌, ◌++◌}
use hisohiso.Agents.Manager.{Approval, Manager, close_session, on_destroy}
use hisohiso.Agents.Facts.{
  Fact, is_allowed, Step, knock_step, resolve_step, done_step, close_step, destroy_step, Reach,
  start, next, AllTrue, Inv,
}
use hisohiso.Agents.Grants.{
  on_knock-Inv, resolve_agent_knock-Inv, approve_done-Inv, close_session-Inv, notify-Inv,
}

Step-Inv :
    {m n : Manager} {more : List Fact} (log : List Fact)
    → Step m n more
    → Inv m log
    → Inv n (more ++ log)
unfolding on_destroy
Step-Inv {m} log (knock_step now object k) inv = on_knock-Inv now object k m log inv
Step-Inv {m} log (resolve_step now agent_id msg_id approve) inv =
    resolve_agent_knock-Inv now agent_id msg_id approve m log inv
Step-Inv {m} log (done_step now a others ok w) inv = approve_done-Inv now a others ok m log w inv
Step-Inv {m} log (close_step now id) inv = close_session-Inv now id m log inv
Step-Inv {m} log (destroy_step now object) inv =
    notify-Inv _ (close_session now (m.heap object).agent_id m) log
      (close_session-Inv now (m.heap object).agent_id m log inv)

module _ (m : Manager) where
  Reach-Inv :
      {n : Manager} {log : List Fact}
      → m.pending_agent_knocks ≡ []
      → m.approving ≡ []
      → m.admitted_devices ≡ []
      → Reach m n log
      → Inv n log
  Reach-Inv p a d start = record { parked = rw p tt; waiting = rw a tt; granted = rw d tt }
  Reach-Inv p a d (next {log = log} reach step) = Step-Inv log step (Reach-Inv p a d reach)

  -- From a manager that has no knock parked and no approval made, in whatever order knocks, answers
  -- of the operator, answers of the relay and ends of sessions come: every device that was let in
  -- had sent a knock with that id, which the pairing code opened and whose text is the session's
  -- knock message; and where a knock was parked, the operator had tapped approve for its key.
  pub Reach-allowed :
      (n : Manager) (log : List Fact)
      → m.pending_agent_knocks ≡ []
      → m.approving ≡ []
      → m.admitted_devices ≡ []
      → Reach m n log
      → all (is_allowed log) n.admitted_devices ≡ true
  Reach-allowed n log p a d reach = holds n.admitted_devices (Reach-Inv p a d reach).granted
    where
      holds : (xs : List Approval) → AllTrue (is_allowed log) xs → all (is_allowed log) xs ≡ true
      holds [] h = refl
      holds (x ∷ xs) h = rw (h.0, holds xs h.1) refl
