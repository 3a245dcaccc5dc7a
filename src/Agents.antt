-- ===== src/Agents.antt =====
-- The class `AgentManager` of cli/src/daemon/agent-manager.ts: the session of an agent room, its
-- turns, and the table of sessions with the knocks that wait for the operator.
pub mod Ledger
pub mod Newest
pub mod Session
pub mod Input
pub mod Output
pub mod Chunks
pub mod Chat
pub mod Turns
pub mod Queue
pub mod Settled
pub mod Once
pub mod Restart
pub mod Manager
pub mod Table
pub mod Command
pub mod Restore
pub mod Restored
pub mod Knock
pub mod Facts
pub mod Grants
pub mod Admission
pub mod Confirm
