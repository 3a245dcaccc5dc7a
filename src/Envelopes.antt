-- ===== src/Envelopes.antt =====
-- cli/src/lib/agent-process.ts: the envelopes in an agent's output.
pub mod Scan
pub mod Choice
pub mod Grammar
