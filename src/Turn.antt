-- ===== src/Turn.antt =====
-- An agent's turn: cli/src/lib/turn-status.ts reads the provider's stream line by line, and
-- cli/src/lib/agent-stream.ts reduces the events to a status that is sent to the room.
pub mod Stream
pub mod StreamLaws
pub mod Runner
pub mod RunnerLaws
pub mod Latest
pub mod Ending
pub mod Beats
