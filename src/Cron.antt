-- ===== src/Cron.antt =====
-- The cron texts of cli/src/lib/scheduler.ts: `parseCron`, `parseDaysToken`, `buildCronFromArgs`
-- and `computeNextRunAt`, over instants in milliseconds since 1970 (UTC).
pub mod Defs
pub mod Valid
pub mod Days
pub mod Sorted
pub mod RoundTrip
pub mod NextRun
