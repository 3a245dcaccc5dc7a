-- ===== src/Hints.antt =====
-- app/src/lib/auto-approve.ts and app/src/lib/pending-knocks.ts: local values by room.
pub mod Local
pub mod Rooms
