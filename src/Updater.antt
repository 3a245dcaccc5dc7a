-- ===== src/Updater.antt =====
-- cli/src/lib/updater.ts: the version check, the verified download and the swap of the binary.
pub mod Version
pub mod Swap
pub mod Verified
