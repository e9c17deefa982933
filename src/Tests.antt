-- ===== src/Tests.antt =====
-- Runs of the theorems at concrete stores.
pub mod Keys
pub mod Messages
pub mod People
pub mod Sqlite
pub mod Device
pub mod Sessions
pub mod Codec
pub mod Files
pub mod Agreement
pub mod Pages
pub mod Inbox
pub mod Bundles
