-- ===== src/Sqlite/Storage.antt =====
-- `SqliteStorage` of src/signal_storage.rs: its opening, its accessors and its closing.
pub mod Lifecycle
pub mod Ops
pub mod Version
use lotl.Prelude.{ℕ, Bool, true, false, if◌then◌else◌}
use lotl.Prelude.Int.{ℤ}
use lotl.Prelude.{String}
use lotl.Exec.{Result, ok, Exec, pure, caught, ◌>>=◌, ◌>>◌}
use lotl.Sql.{Connection, statement, create, within}
use lotl.DbConnection.{create_schema_info, insert_version}
use lotl.DbConnection
use lotl.Device.{Tables, Shared, schema_part}

-- A store is `Some` or `None`; all of them work on the storage's connection.
pub record SqliteStorage : Type 0 where
  pub has_session_store : Bool
  pub has_identity_store : Bool
  pub has_pre_key_store : Bool
  pub has_signed_pre_key_store : Bool
  pub has_kyber_pre_key_store : Bool
  pub closed : Bool

-- A storage with its connection.
pub record Handle : Type 0 where
  pub storage : SqliteStorage
  pub connection : Connection Tables

abbrev pub new_storage : SqliteStorage
new_storage = record {
  has_session_store = false;
  has_identity_store = false;
  has_pre_key_store = false;
  has_signed_pre_key_store = false;
  has_kyber_pre_key_store = false;
  closed = false;
}

abbrev pub new : Connection Tables → Handle
new connection = record { storage = new_storage; connection = connection }

abbrev pub is_closed : Handle → Bool
is_closed h = h.storage.closed

-- The statements of the five `create_tables`.
unfoldable pub create_identity_tables : Shared (Unit {0})
create_identity_tables = do create; create

abbrev pub create_session_tables : Shared (Unit {0})
create_session_tables = create

abbrev pub create_pre_key_tables : Shared (Unit {0})
create_pre_key_tables = create

abbrev pub create_signed_pre_key_tables : Shared (Unit {0})
create_signed_pre_key_tables = create

abbrev pub create_kyber_pre_key_tables : Shared (Unit {0})
create_kyber_pre_key_tables = create

-- The statements of `initialize_schema`.
unfoldable pub create_tables : ℕ → Shared (Unit {0})
unfolding create_identity_tables
create_tables now = do
  within schema_part (statement create_schema_info)
  within schema_part (statement (insert_version now))
  create_identity_tables
  create_session_tables
  create_pre_key_tables
  create_signed_pre_key_tables
  create_kyber_pre_key_tables

abbrev pub with_stores : Bool → SqliteStorage → SqliteStorage
with_stores b storage = record storage {
  has_session_store = b;
  has_identity_store = b;
  has_pre_key_store = b;
  has_signed_pre_key_store = b;
  has_kyber_pre_key_store = b;
}

-- An action on the connection of the storage.
unfoldable pub connected : {A : Type 0} → Shared A → Exec Handle A
connected m h = let (r, c) = m h.connection in (r, record h { connection = c })

unfoldable pub update_storage : (SqliteStorage → SqliteStorage) → Exec Handle (Unit {0})
update_storage f h = (ok tt, record h { storage = f h.storage })

unfoldable pub initialize_schema : ℕ → Exec Handle (Unit {0})
unfolding connected update_storage create_tables
initialize_schema now = do connected (create_tables now); update_storage (with_stores true)

unfoldable pub get_schema_version : Exec Handle ℤ
unfolding connected DbConnection.get_schema_version
get_schema_version = connected (within schema_part DbConnection.get_schema_version)

-- What a function that may panic gives.
pub data Panicking : Type 0 where
  returns : Panicking
  panics : String → Panicking

-- `if is_closed { panic! } store.as_mut().expect(...)`
abbrev pub accessed : Bool → Bool → Panicking
accessed true store = panics "Storage has been closed"
accessed false false = panics "Storage not initialized"
accessed false true = returns

abbrev pub session_store : Handle → Panicking
session_store h = accessed h.storage.closed h.storage.has_session_store

abbrev pub identity_store : Handle → Panicking
identity_store h = accessed h.storage.closed h.storage.has_identity_store

abbrev pub pre_key_store : Handle → Panicking
pre_key_store h = accessed h.storage.closed h.storage.has_pre_key_store

abbrev pub signed_pre_key_store : Handle → Panicking
signed_pre_key_store h = accessed h.storage.closed h.storage.has_signed_pre_key_store

abbrev pub kyber_pre_key_store : Handle → Panicking
kyber_pre_key_store h = accessed h.storage.closed h.storage.has_kyber_pre_key_store

-- PRAGMA optimize, `?`, and PRAGMA wal_checkpoint(FULL), `.ok()`
unfoldable pub checkpoint : Shared (Unit {0})
checkpoint = do
  statement {A = Unit {0}} (λ t. (ok tt, t))
  ignored ← caught (statement {A = Unit {0}} (λ t. (ok tt, t)))
  pure tt

unfoldable pub close : Exec Handle (Unit {0})
unfolding connected update_storage checkpoint
close h =
    (if h.storage.closed then pure tt else do
      connected checkpoint
      update_storage (λ storage. with_stores false (record storage { closed = true })))
      h
