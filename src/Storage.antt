-- ===== src/Storage.antt =====
-- app/src/lib/storage.ts: the rooms and the settings that the application keeps in the browser.
pub mod Rooms
pub mod Items
pub mod Find
pub mod Kinds
pub mod Values
pub mod Accessors
