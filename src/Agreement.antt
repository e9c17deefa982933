-- ===== src/Agreement.antt =====
-- The two implementations of the storage traits, src/memory_storage.rs and src/signal_storage.rs,
-- give a caller the same answers.
pub mod Sessions
pub mod Identities
pub mod HalfSet
