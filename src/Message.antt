-- ===== src/Message.antt =====
-- app/src/lib/room-message.ts: the envelope inside a room's encrypted payload, its record in the
-- local history, and the texts shown for it.
pub mod Envelope
pub mod Responses
pub mod Record
pub mod Masks
pub mod Redaction
pub mod Display
pub mod Bounds
