-- ===== src/Scheduler.antt =====
-- The class `Scheduler` of cli/src/lib/scheduler.ts, with the event loop's timers and the fires in
-- flight made explicit: methods, timer callbacks and completions are functions on the state, and
-- `Step` is their interleaving.
pub mod Defs
pub mod Invariant
pub mod Parts
pub mod Flights
pub mod Steps
pub mod Reach
pub mod Contracts
