-- ===== src/Api.antt =====
-- src/lib.rs: an instance of `Lotl` over the shared database.
pub mod State
pub mod Identity
pub mod Laws
pub mod Bundles
pub mod Calls
pub mod Sessions
pub mod Closed
pub mod Start
