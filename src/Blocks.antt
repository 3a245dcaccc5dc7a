-- ===== src/Blocks.antt =====
-- app/src/lib/block-validation.ts: what is left of the blocks of a message before they are rendered.
pub mod Block
pub mod Parts
pub mod Validate
pub mod Colors
pub mod Cases
pub mod Sanitize
