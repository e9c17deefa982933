-- ===== src/Sqlite.antt =====
-- src/signal_storage.rs: the Signal Protocol stores over SQLite.
pub mod Tables
pub mod KeyTable
pub mod SignedPreKeys
pub mod KyberPreKeys
pub mod PreKeys
pub mod Container
pub mod Storage
pub mod Sessions
pub mod Identities
