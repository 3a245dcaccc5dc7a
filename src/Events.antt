-- ===== src/Events.antt =====
-- cli/src/lib/sse-client.ts: the subscription to a room's events.
pub mod Subscription
pub mod Refresh
