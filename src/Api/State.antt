-- ===== src/Api/State.antt =====
-- The struct `Lotl` of src/lib.rs and what its methods are made of.
use lotl.Prelude.{ℕ, ◌≡◌, refl, ap, ◌∙◌, Option, none, some, List}
use lotl.Errors.{LotlError, storage, text, panicked}
use lotl.Exec.{Result, ok, err, Exec, ok_or, ◌>>=◌, ◌>>◌}
use lotl.Exec.Ends.{Ends, step_ok}
use lotl.Sql.{Connection, within}
use lotl.Database.{Database}
use lotl.Types.{LotlConfig}
use lotl.Libsignal.{SignedRecordApi}
use lotl.Device.{Tables, Shared, signal_part, app_part}
use lotl.Sqlite.Tables.{SignalTables}
use lotl.Sqlite.KeyTable.{RecordFormat}
use lotl.Sqlite.Identities.{IdentityFormat}
use lotl.Sqlite.Storage
use lotl.Sqlite.Storage.{SqliteStorage, Handle, Panicking, returns, panics}
use lotl.Sqlite.Storage.Lifecycle.{Serves}
use lotl.Sqlite.Storage.Ops.{Outcome, returned, panicked as panics_with}

pub record Lotl : Type 0 where
  pub db_connection : Connection Tables
  pub config : LotlConfig
  pub storage : Option SqliteStorage

unfoldable pub on_connection : {A : Type 0} → Shared A → Exec Lotl A
on_connection m lotl' =
    let (r, c) = m lotl'.db_connection in (r, record lotl' { db_connection = c })

abbrev pub on_signal : {A : Type 0} → Exec (Connection SignalTables) A → Exec Lotl A
on_signal m = on_connection (within signal_part m)

-- The tables of libsignal's stores, on the instance's connection.
abbrev pub signal_connection : Lotl → Connection SignalTables
signal_connection lotl' = record {
  tables = lotl'.db_connection.tables.signal;
  faults = lotl'.db_connection.faults;
}

abbrev pub app_connection : Lotl → Connection Database
app_connection lotl' = record {
  tables = lotl'.db_connection.tables.app;
  faults = lotl'.db_connection.faults;
}

abbrev pub on_app : {A : Type 0} → Exec (Connection Database) A → Exec Lotl A
on_app m = on_connection (within app_part m)

-- The result of `initialize_schema` on a new storage, which is kept if it succeeds.
abbrev keep_storage : Lotl → Result (Unit {0}) × Storage.Handle → Result (Unit {0}) × Lotl
keep_storage lotl' (ok a, h) =
    (ok tt, record lotl' { db_connection = h.connection; storage = some h.storage })
keep_storage lotl' (err e, h) = (err e, record lotl' { db_connection = h.connection })

abbrev open_storage : ℕ → Option SqliteStorage → Exec Lotl (Unit {0})
open_storage now none lotl' =
    keep_storage lotl' (Storage.initialize_schema now (Storage.new lotl'.db_connection))
open_storage now (some s) lotl' = (ok tt, lotl')

-- `now` is what SQLite's strftime('%s', 'now') reads.
unfoldable pub ensure_storage_initialized : ℕ → Exec Lotl (Unit {0})
ensure_storage_initialized now lotl' = open_storage now lotl'.storage lotl'

-- `self.storage.as_mut().ok_or_else(|| ...)?`; the stores of the storage work on the connection.
unfoldable pub opened_storage : Exec Lotl SqliteStorage
opened_storage lotl' = ok_or (storage (text "Storage not initialized")) lotl'.storage lotl'

-- The storage with the instance's connection.
abbrev pub handle_of : SqliteStorage → Lotl → Handle
handle_of opened lotl' = record { storage = opened; connection = lotl'.db_connection }

abbrev pub access_result : Panicking → Result (Unit {0})
access_result returns = ok tt
access_result (panics message) = err (panicked message)

-- An accessor of the storage, which panics when the storage was closed. No `map_err` of a caller
-- stands around it.
unfoldable pub access : (Handle → Panicking) → SqliteStorage → Exec Lotl (Unit {0})
access accessor opened lotl' = (access_result (accessor (handle_of opened lotl')), lotl')

-- The accessors of a method that uses the four key and identity stores. They come and go together, so
-- that the first panics or none does.
unfoldable pub access_stores : SqliteStorage → Exec Lotl (Unit {0})
unfolding access
access_stores opened = do
  access Storage.identity_store opened
  access Storage.pre_key_store opened
  access Storage.signed_pre_key_store opened
  access Storage.kyber_pre_key_store opened

abbrev settled : {A : Type 0} → (LotlError → LotlError) → Outcome A → Result A
settled f (returned (ok a)) = ok a
settled f (returned (err e)) = err (f e)
settled f (panics_with message) = err (panicked message)

-- A call of `ExtendedStorageOps` on the storage, with the `map_err` of its caller.
unfoldable pub on_storage :
    {A : Type 0}
    → (LotlError → LotlError)
    → (Handle → Outcome A × Handle)
    → SqliteStorage
    → Exec Lotl A
on_storage f op opened lotl' =
    let (o, h) = op (handle_of opened lotl') in
    (settled f o, record lotl' { db_connection = h.connection; storage = some h.storage })

pub access-returns :
    (accessor : Handle → Panicking) (opened : SqliteStorage) (lotl' : Lotl)
    → accessor (handle_of opened lotl') ≡ returns
    → access accessor opened lotl' ≡ (ok tt, lotl')
unfolding access
access-returns accessor opened lotl' e = ap (λ p. (access_result p, lotl')) e

pub access_stores-Serves :
    (opened : SqliteStorage) (lotl' : Lotl)
    → Serves (handle_of opened lotl')
    → access_stores opened lotl' ≡ (ok tt, lotl')
unfolding access_stores
access_stores-Serves opened lotl' s =
    step_ok _ _ lotl' lotl' tt (access-returns Storage.identity_store opened lotl' s.identities)
    ∙ step_ok _ _ lotl' lotl' tt (access-returns Storage.pre_key_store opened lotl' s.pre_keys)
    ∙ step_ok _ _ lotl' lotl' tt
        (access-returns Storage.signed_pre_key_store opened lotl' s.signed_pre_keys)
    ∙ access-returns Storage.kyber_pre_key_store opened lotl' s.kyber_pre_keys

-- A query of the stores changes nothing of the instance.
pub on_signal-query :
    {A : Type 0} (m : Exec (Connection SignalTables) A) (lotl' : Lotl) (r : Result A)
    → m (signal_connection lotl') ≡ (r, signal_connection lotl')
    → on_signal m lotl' ≡ (r, lotl')
unfolding on_connection within
on_signal-query m lotl' r e = rw e refl

pub on_app-query :
    {A : Type 0} (m : Exec (Connection Database) A) (lotl' : Lotl) (r : Result A)
    → m (app_connection lotl') ≡ (r, app_connection lotl')
    → on_app m lotl' ≡ (r, lotl')
unfolding on_connection within
on_app-query m lotl' r e = rw e refl

-- An action of the stores that ends well changes the stores' tables only.
pub on_signal-Ends :
    {A : Type 0} {Q : A → Connection SignalTables → Type 0} (m : Exec (Connection SignalTables) A)
    (lotl' : Lotl)
    → Ends Q (m (signal_connection lotl'))
    → Ends
        (λ a t.
          Q a (signal_connection t)
          × (t.storage ≡ lotl'.storage)
          × (t.config ≡ lotl'.config)
          × (t.db_connection.tables.app ≡ lotl'.db_connection.tables.app))
        (on_signal m lotl')
unfolding on_connection within
on_signal-Ends m lotl' e =
    rw e.succeeds (record { value = e.value; succeeds = refl; after = (e.after, refl, refl, refl) })

-- An instance whose storage is open.
pub ensure_storage_initialized-open :
    (now : ℕ) (lotl' : Lotl) (s : SqliteStorage)
    → lotl'.storage ≡ some s
    → ensure_storage_initialized now lotl' ≡ (ok tt, lotl')
unfolding ensure_storage_initialized
ensure_storage_initialized-open now lotl' s e = rw e refl

pub opened_storage-open :
    (lotl' : Lotl) (s : SqliteStorage)
    → lotl'.storage ≡ some s
    → opened_storage lotl' ≡ (ok s, lotl')
unfolding opened_storage ◌>>=◌
opened_storage-open lotl' s e = rw e refl

-- What the code takes from libsignal and bincode, beside the stores' own.
pub record Signal
    (IdentityKey IdentityKeyPair Signed Kyber PreKey KeyPair KemKeyPair Signature : Type 0)
    : Type 0 where
  pub identities : IdentityFormat IdentityKey IdentityKeyPair
  pub signed : SignedRecordApi IdentityKeyPair KeyPair Signature Signed
  pub kyber : SignedRecordApi IdentityKeyPair KemKeyPair Signature Kyber
  pub signed_format : RecordFormat Signed
  pub kyber_format : RecordFormat Kyber
  pub pre_key_from : List ℕ → Result PreKey
  pub pre_key_bytes : PreKey → Result (List ℕ)
  pub new_pre_key : ℕ → KeyPair → PreKey

-- What the clocks read and what the random generator draws in one call; `clock` is in
-- milliseconds, and an error before 1970.
pub record Draws (IdentityKeyPair KeyPair Kyber : Type 0) : Type 0 where
  pub now : ℕ
  pub clock : Result ℕ
  pub identity_key_pair : IdentityKeyPair
  pub registration : ℕ
  pub key_pair : KeyPair
  pub kyber_record : Result Kyber
  pub pre_key_pair : ℕ → KeyPair
