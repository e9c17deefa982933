-- ===== src/Lib.antt =====
-- lotl: Signal Protocol sessions, contacts, message history and Nostr identities over one SQLite
-- database.
--
-- The program. `Lotl` (src/lib.rs) opens an SQLCipher database and keeps in it the five libsignal
-- stores of src/signal_storage.rs, the contacts of src/contact_manager.rs, the conversations and
-- messages of src/message_history.rs and the Nostr keys of src/integrations/nostr/storage.rs. Key
-- rotation (src/key_rotation.rs, with the generators of src/keys.rs) is generic over the traits of
-- src/storage_trait.rs, which src/signal_storage.rs and src/memory_storage.rs implement.
--
-- The files.
--   Errors, Exec, Sql: `LotlError`; methods as functions from a store to a result and a store, where
--     what was written before a failure stays written, and a panic in a method of `Lotl` is an error of
--     its own, `panicked`; a connection whose engine may refuse any statement, by a list of answers that
--     the theorems leave open or take as empty.
--   Types, Database: src/types.rs and the tables that history, contacts and Nostr share. A row id is
--     a number below 2^63; `last_insert_rowid` is read only after an INSERT of the same call, so the
--     hidden row ids of `contacts` and `nostr_identities` are left out.
--   History: src/message_history.rs. Statements has the SQL statements, Store, Manage and Read the
--     functions, under the source's names; Consistent and Calls have the invariant under any calls;
--     Opened, Unread and RoundTrip have what is read after a call, Pages what is read page by page and
--     Deletion what a deletion leaves. Inbox has the abstract view, boxes by fingerprint with a step for
--     each call; Inbox/Changes and Inbox/Refines show that the calls are the steps, Inbox/Reads and
--     Inbox/Listing what is read of the boxes.
--   Contacts: src/contact_manager.rs, and in Contacts/Refines the address book that it implements;
--     Nostr: src/integrations/nostr/storage.rs, and in Nostr/Registry the registry that it implements;
--     Nostr/Derivation: src/integrations/nostr/identity.rs and types.rs.
--   HashMap: Rust's HashMap<u32, _> and a table with a primary key, as association lists.
--   StorageTrait: src/storage_trait.rs, and the laws of a key store as a finite map; Libsignal: what
--     the code takes from libsignal_protocol.
--   Rotation: src/key_rotation.rs and src/keys.rs over any container (Stores); the cleanup, the
--     rotation and the replenishment over any backend that keeps the laws.
--   Sqlite: src/signal_storage.rs. The signed and the Kyber store run the same statements, which
--     KeyTable has once; KeyTable/Laws and PreKeys/Laws show that they keep the laws, Container puts the
--     stores side by side on one connection, Storage has the opening and closing of SqliteStorage, and
--     Storage/Ops what it hands to libsignal.
--   Memory: the key maps of src/memory_storage.rs; Peers has its sessions and identities, Ops what it
--     hands to libsignal.
--   Agreement: the two storages side by side, as a caller sees them (Exec/Trace): sessions, identities,
--     and where they differ (HalfSet).
--   Maintenance: `perform_key_maintenance` of src/lib.rs, that it succeeds (Completes), or fails
--     under a clock that cannot be read (Unread), and the fate of the key that it replaces (Grace).
--   KeyFile: src/db_encryption.rs over a disk whose calls may fail; DbConnection: src/db_connection.rs,
--     whose schema version Sqlite/Storage/Version follows over the starts of an instance.
--   Device: the tables of one database, of which a component's method sees its own (`within`).
--   Api: the methods of `Lotl` in src/lib.rs. State has the struct and the accessors of its storage,
--     which panic when the storage was closed, Identity the first start, Bundles the pre-key bundles and
--     Calls the rest, `new` included; Start puts the start together,
--     Sessions is about a deleted session, Closed about a closed storage and Bundles/Session about the
--     session of a bundle.
--   Tests: runs at concrete stores.
--
-- Parameters. The clock, random key pairs, SHA-256, hex, the order that ORDER BY gives, whether the
-- build of SQLite enforces foreign keys, bincode, and libsignal's records with their accessors are
-- arguments. A reading of the clock in src/key_rotation.rs and src/keys.rs is an error before 1970, and
-- milliseconds after it.
-- Arithmetic on u32 and u64 wraps, as in a release build. All loops run over lists or counters, so no
-- fuel is used. A mutex is never contended: each method holds it over its statements.
--
-- Not modelled. What libsignal does with the stores that it is handed (its processing of a bundle, its
-- encryption and decryption are the parameter Messages of Storage/Ops and Api); HKDF and secp256k1,
-- which are parameters of Nostr/Derivation; SQLCipher; the text of an error that wraps
-- another. The tables of src/signal_storage.rs and of the application are there from the start, so that
-- a CREATE statement changes no row; `Lotl` runs no other statement before them.
pub mod Prelude
pub mod Errors
pub mod Exec
pub mod Sql
pub mod Types
pub mod Database
pub mod HashMap
pub mod Libsignal
pub mod StorageTrait
pub mod Rotation
pub mod Maintenance
pub mod Memory
pub mod Agreement
pub mod Sqlite
pub mod Contacts
pub mod Nostr
pub mod History
pub mod KeyFile
pub mod DbConnection
pub mod Device
pub mod Api
pub mod Tests
