-- ===== src/Api/Calls.antt =====
-- The other methods of `Lotl` in src/lib.rs: sessions and messages, contacts, Nostr identities, and
-- the start of an instance.
use lotl.Prelude.{
  address_eq, string_eq, ℕ, Eq, String, Bool, false, Option, none, some, List, ◌==◌, ltb,
  count_where, if◌then◌else◌,
}
use lotl.Errors.{
  LotlError, storage, invalid_config, database, query_returned_no_rows, text, joined, shown,
}
use lotl.Exec.{
  Result, ok, err, Exec, pure, raise, lift, gets, caught, map_err, unwrap_or, ◌>>=◌, ◌>>◌,
}
use lotl.Sql.{Connection, statement}
use lotl.Types.{LotlConfig, ContactInfo, MaintenanceResult}
use lotl.KeyFile.{Disk}
use lotl.DbConnection
use lotl.DbConnection.{Rusqlite}
use lotl.Device.{Tables}
use lotl.Maintenance
use lotl.Maintenance.{as_storage_error, Readings}
use lotl.Sqlite.Identities.{get_identity_key_pair}
use lotl.Contacts
use lotl.Contacts.{Hashing, Clock, generate_fingerprint}
use lotl.Nostr
use lotl.Nostr.Derivation
use lotl.Nostr.Derivation.{NostrConfig, NostrCrypto, NostrKeys}
use lotl.History.Store
use lotl.Sqlite.Tables.{SignalTables, LocalIdentityRow}
use lotl.Sqlite.KeyTable.{row_or_none}
use lotl.Sqlite.Sessions
use lotl.Sqlite.Storage.{SqliteStorage, session_store}
use lotl.Sqlite.Storage.Ops as Ops
use lotl.Libsignal.{Messages}
use lotl.Api.State.{
  Lotl, on_signal, on_app, ensure_storage_initialized, opened_storage, access, access_stores,
  on_storage, Signal, Draws,
}
use lotl.Api.Identity.{storage_at, ensure_identity_initialized}

-- the match on the row
unfoldable pub public_key_read : Result LocalIdentityRow → Exec Lotl (List ℕ)
public_key_read (ok row) = pure row.public_key
public_key_read (err (database query_returned_no_rows)) =
    raise (storage (text "Local identity not initialized"))
public_key_read (err e) = raise e

unfoldable pub get_identity_key : Exec Lotl (List ℕ)
unfolding public_key_read
get_identity_key = do
  result ← caught (on_signal (statement (λ (t : SignalTables). (row_or_none t.local_identity, t))))
  public_key_read result

unfoldable pub get_fingerprint : Hashing → Exec Lotl String
unfolding get_identity_key
get_fingerprint hashing = do
  identity_key ← get_identity_key
  config ← gets (λ lotl'. lotl'.config)
  pure (generate_fingerprint hashing identity_key config.fingerprint_salt config.fingerprint_prefix)

-- libsignal's messages. A ciphertext is read as a pre-key message first.
pub record Cipher (Ciphertext : Type 0) : Type 0 where
  pub device_id : ℕ → Result ℕ
  pub serialize : Ciphertext → List ℕ
  pub pre_key_message : List ℕ → Result Ciphertext
  pub signal_message : List ℕ → Result Ciphertext

-- `DeviceId::new(1)`
abbrev as_device_error : LotlError → LotlError
as_device_error e = storage (joined (text "Invalid device ID: ") (shown e))

module _ {Bundle Ciphertext : Type 0} (cipher : Cipher Ciphertext)
    (messages : Messages (Connection SignalTables) Bundle Ciphertext) where
  -- `time` is the time that libsignal is handed.
  unfoldable pub encrypt : ℕ → ℕ → String → List ℕ → Exec Lotl (List ℕ)
  unfolding Ops.encrypt_message
  encrypt now time peer_id plaintext = do
    ensure_storage_initialized now
    opened ← opened_storage
    device_id ← map_err as_device_error (lift (cipher.device_id 1))
    ciphertext ←
        on_storage (λ e. e) (Ops.encrypt_message messages time (peer_id, device_id) plaintext)
          opened
    pure (cipher.serialize ciphertext)

  -- the match on `PreKeySignalMessage::try_from`
  abbrev pub message_of : List ℕ → Result Ciphertext → Result Ciphertext
  message_of ciphertext (ok message) = ok message
  message_of ciphertext (err e) = cipher.signal_message ciphertext

  unfoldable pub decrypt : ℕ → String → List ℕ → Exec Lotl (List ℕ)
  unfolding Ops.decrypt_message
  decrypt now peer_id ciphertext = do
    ensure_storage_initialized now
    opened ← opened_storage
    device_id ← map_err as_device_error (lift (cipher.device_id 1))
    message ← lift (message_of ciphertext (cipher.pre_key_message ciphertext))
    on_storage (λ e. e) (Ops.decrypt_message messages (peer_id, device_id) message) opened

module _ {Ciphertext : Type 0} (cipher : Cipher Ciphertext) where
  unfoldable pub delete_session : ℕ → String → Exec Lotl (Unit {0})
  delete_session now peer_id = do
    ensure_storage_initialized now
    opened ← opened_storage
    device_id ← map_err as_device_error (lift (cipher.device_id 1))
    access session_store opened
    map_err as_storage_error (on_signal (Sessions.delete_session (peer_id, device_id)))

-- SELECT COUNT(*) FROM sessions WHERE address = ?1 AND device_id = 1
abbrev pub session_rows : String → SignalTables → ℕ
session_rows peer_id t = count_where (λ entry. entry.0 == (peer_id, 1)) t.sessions

abbrev has_rows : String → Exec Lotl Bool
has_rows peer_id =
    unwrap_or false
      (on_signal (statement (λ (t : SignalTables). (ok (ltb 0 (session_rows peer_id t)), t))))

-- the test of `self.storage`
abbrev pub found_in : String → Option SqliteStorage → Exec Lotl Bool
found_in peer_id none = pure false
found_in peer_id (some s) = has_rows peer_id

-- A failure of any kind passes for "no session".
unfoldable pub has_session : String → Exec Lotl Bool
has_session peer_id lotl' = found_in peer_id lotl'.storage lotl'

unfoldable pub add_contact : Hashing → Clock → List ℕ → Option String → Exec Lotl String
unfolding Contacts.add_contact
add_contact hashing clock identity_key alias = do
  config ← gets (λ lotl'. lotl'.config)
  on_app (
      Contacts.add_contact hashing clock identity_key alias config.fingerprint_salt
        config.fingerprint_prefix)

unfoldable pub lookup_contact : String → Exec Lotl (Option ContactInfo)
unfolding Contacts.lookup_contact
lookup_contact fingerprint = on_app (Contacts.lookup_contact fingerprint)

unfoldable pub list_contacts : (List ContactInfo → List ContactInfo) → Exec Lotl (List ContactInfo)
unfolding Contacts.list_contacts
list_contacts by_last_updated_desc = on_app (Contacts.list_contacts by_last_updated_desc)

-- CREATE TABLE and CREATE INDEX of `init_contacts_table`.
unfoldable pub ensure_contacts_table_initialized : Exec Lotl (Unit {0})
unfolding Contacts.init_contacts_table
ensure_contacts_table_initialized = on_app Contacts.init_contacts_table

unfoldable pub ensure_message_history_initialized : Exec Lotl (Unit {0})
unfolding Store.init_message_history_tables
ensure_message_history_initialized = on_app Store.init_message_history_tables

module _ {IdentityKey IdentityKeyPair Signed Kyber PreKey KeyPair KemKeyPair Signature : Type 0}
    ⦃key_eq : Eq IdentityKey⦄
    (signal : Signal IdentityKey IdentityKeyPair Signed Kyber PreKey KeyPair KemKeyPair Signature)
    (draws : Draws IdentityKeyPair KeyPair Kyber) where
  -- The methods that `new` calls on the new instance.
  unfoldable pub started : Exec Lotl (Unit {0})
  unfolding ensure_contacts_table_initialized ensure_message_history_initialized
  started = do
    ensure_storage_initialized draws.now
    ensure_identity_initialized signal draws
    ensure_contacts_table_initialized
    ensure_message_history_initialized

  -- What was written to the database before a failure stays there, so the instance comes back beside
  -- the result.
  unfoldable pub new : Rusqlite Tables → List ℕ → LotlConfig → Exec Disk (Result (Unit {0}) × Lotl)
  unfolding started DbConnection.new
  new sqlite new_key config =
      if config.db_path == "" then raise (invalid_config (text "db_path cannot be empty")) else do
        db_connection ← DbConnection.new sqlite config.db_path new_key
        pure (started (record { db_connection = db_connection; config = config; storage = none }))

  unfoldable pub perform_key_maintenance :
      Readings → KeyPair → KemKeyPair → (ℕ → KeyPair) → Exec Lotl MaintenanceResult
  unfolding Maintenance.perform_key_maintenance
  perform_key_maintenance readings key_pair kyber_keypair generate = do
    ensure_storage_initialized draws.now
    opened ← opened_storage
    access_stores opened
    on_signal (
        Maintenance.perform_key_maintenance (storage_at signal draws.now)
          (get_identity_key_pair signal.identities) signal.signed signal.kyber signal.new_pre_key
          readings key_pair kyber_keypair generate)

unfoldable pub derive_nostr_keypair :
    {SecretKey PublicKey : Type 0}
    → NostrCrypto SecretKey PublicKey
    → NostrConfig
    → Exec Lotl (NostrKeys SecretKey PublicKey)
unfolding get_identity_key Derivation.derive_nostr_keypair
derive_nostr_keypair api config = do
  identity_key ← get_identity_key
  lift (Derivation.derive_nostr_keypair api identity_key config)

unfoldable pub get_peer_nostr_pubkey : String → Exec Lotl (Option String)
unfolding Nostr.init_nostr_tables Nostr.get_nostr_pubkey
get_peer_nostr_pubkey fingerprint = do
  on_app Nostr.init_nostr_tables
  on_app (Nostr.get_nostr_pubkey fingerprint)

unfoldable pub store_nostr_identity : String → String → String → Exec Lotl (Unit {0})
unfolding Nostr.init_nostr_tables Nostr.store_nostr_identity
store_nostr_identity fingerprint nostr_pubkey derivation_context = do
  on_app Nostr.init_nostr_tables
  on_app (Nostr.store_nostr_identity fingerprint nostr_pubkey derivation_context)
