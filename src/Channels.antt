-- ===== src/Channels.antt =====
-- app/src/lib/room-grouping.ts: agents under the control rooms that spawned them.
pub mod Groups
pub mod Partition
