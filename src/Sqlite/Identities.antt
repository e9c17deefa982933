-- ===== src/Sqlite/Identities.antt =====
-- `SqliteIdentityStore` of src/signal_storage.rs: the local identity, and the keys of peers, which
-- are trusted on first use.
pub mod Trust
use lotl.Prelude.{
  address_eq, bytes_eq, Eq, ℕ, ◌≡◌, String, Bool, true, false, Option, none, some, List, [], length,
  ◌==◌, if◌then◌else◌,
}
use lotl.Errors.{LotlError, signal_protocol, invalid_state, database, query_returned_no_rows}
use lotl.Exec.{Result, ok, err, Exec, pure, raise, lift, caught, map_err, unwrap_or, ◌>>=◌, ◌>>◌}
use lotl.Libsignal.{IdentityChange, new_or_unchanged, replaced_existing}
use lotl.StorageTrait.{IdentityStore}
use lotl.Sql.{Connection, statement}
use lotl.HashMap.{lookup, insert, remove}
use lotl.Sqlite.Tables.{SignalTables, LocalIdentityRow, IdentityRow}
use lotl.Sqlite.KeyTable.{storage_error, row_or_none}

-- libsignal's `IdentityKey` and `IdentityKeyPair`.
pub record IdentityFormat (IdentityKey IdentityKeyPair : Type 0) : Type 0 where
  pub key_bytes : IdentityKey → List ℕ
  pub key_from : List ℕ → Result IdentityKey
  pub pair_bytes : IdentityKeyPair → List ℕ
  pub pair_from : List ℕ → Result IdentityKeyPair
  pub identity_key : IdentityKeyPair → IdentityKey

abbrev not_set : {A : Type 0} → String → Exec (Connection SignalTables) A
not_set what = raise (signal_protocol (invalid_state what))

module _ {IdentityKey IdentityKeyPair : Type 0} ⦃key_eq : Eq IdentityKey⦄
    (format : IdentityFormat IdentityKey IdentityKeyPair) where
  unfoldable pub pair_read :
      Result LocalIdentityRow → Exec (Connection SignalTables) IdentityKeyPair
  pair_read (ok row) = map_err storage_error (lift (format.pair_from row.private_key))
  pair_read (err (database query_returned_no_rows)) =
      raise (signal_protocol (invalid_state "Local identity key pair not set"))
  pair_read (err e) = raise (storage_error e)

  unfoldable pub get_identity_key_pair : Exec (Connection SignalTables) IdentityKeyPair
  unfolding pair_read
  get_identity_key_pair = do
    result ← caught (statement (λ t. (row_or_none t.local_identity, t)))
    pair_read result

  -- `IdentityChange` of the match on the stored key
  unfoldable pub change_type :
      List ℕ → Result IdentityRow → Exec (Connection SignalTables) IdentityChange
  change_type serialized_key (ok row) =
      pure (if row.public_key == serialized_key then new_or_unchanged else replaced_existing)
  change_type serialized_key (err (database query_returned_no_rows)) = pure new_or_unchanged
  change_type serialized_key (err e) = raise (storage_error e)

  -- INSERT OR REPLACE: the columns that it leaves out are reset to their defaults
  unfoldable pub save_identity :
      ℕ → String × ℕ → IdentityKey → Exec (Connection SignalTables) IdentityChange
  unfolding change_type
  save_identity now address identity_key = do
    existing ← caught (statement (λ t. (row_or_none (lookup address t.identity_keys), t)))
    change ← change_type (format.key_bytes identity_key) existing
    map_err storage_error (
        statement {A = Unit {0}} (λ t. (
          ok tt,
          record t {
            identity_keys =
                insert address
                  (record {
                    public_key = format.key_bytes identity_key;
                    trust_level = 0;
                    first_seen = now;
                    last_seen = now;
                    verified_at = none;
                  })
                  t.identity_keys;
          },
        )))
    pure change

  unfoldable pub key_read : Result IdentityRow → Exec (Connection SignalTables) (Option IdentityKey)
  key_read (ok row) = do
    key ← map_err storage_error (lift (format.key_from row.public_key))
    pure (some key)
  key_read (err (database query_returned_no_rows)) = pure none
  key_read (err e) = raise (storage_error e)

  unfoldable pub get_identity : String × ℕ → Exec (Connection SignalTables) (Option IdentityKey)
  unfolding key_read
  get_identity address = do
    result ← caught (statement (λ t. (row_or_none (lookup address t.identity_keys), t)))
    key_read result

  unfoldable pub peer_read :
      Result IdentityRow → Exec (Connection SignalTables) (Option IdentityKey)
  peer_read (ok row) = do key ← lift (format.key_from row.public_key); pure (some key)
  peer_read (err (database query_returned_no_rows)) = pure none
  peer_read (err e) = raise e

  -- The same query as `get_identity`, with the errors passed on as they are.
  unfoldable pub get_peer_identity :
      String × ℕ → Exec (Connection SignalTables) (Option IdentityKey)
  unfolding peer_read
  get_peer_identity address = do
    result ← caught (statement (λ t. (row_or_none (lookup address t.identity_keys), t)))
    peer_read result

  abbrev pub trusts : IdentityKey → Option IdentityKey → Bool
  trusts identity_key none = true
  trusts identity_key (some stored_key) = stored_key == identity_key

  unfoldable pub is_trusted_identity :
      String × ℕ → IdentityKey → Exec (Connection SignalTables) Bool
  unfolding get_identity
  is_trusted_identity address identity_key = do
    stored_identity ← get_identity address
    pure (trusts identity_key stored_identity)

  -- COALESCE((SELECT registration_id ...), 0)
  abbrev pub registration_or_zero : Option LocalIdentityRow → ℕ
  registration_or_zero none = 0
  registration_or_zero (some row) = row.registration_id

  unfoldable pub set_local_identity_key_pair :
      ℕ → IdentityKeyPair → Exec (Connection SignalTables) (Unit {0})
  set_local_identity_key_pair now pair = statement (λ t. (
    ok tt,
    record t {
      local_identity = some (record {
        registration_id = registration_or_zero t.local_identity;
        private_key = format.pair_bytes pair;
        public_key = format.key_bytes (format.identity_key pair);
        created_at = now;
        updated_at = now;
      });
    },
  ))

unfoldable pub registration_read : Result LocalIdentityRow → Exec (Connection SignalTables) ℕ
registration_read (ok row) = pure row.registration_id
registration_read (err (database query_returned_no_rows)) =
    raise (signal_protocol (invalid_state "Local registration ID not set"))
registration_read (err e) = raise (storage_error e)

unfoldable pub get_local_registration_id : Exec (Connection SignalTables) ℕ
unfolding registration_read
get_local_registration_id = do
  result ← caught (statement (λ t. (row_or_none t.local_identity, t)))
  registration_read result

-- COALESCE((SELECT private_key ...), X'')
abbrev pub private_or_empty : Option LocalIdentityRow → List ℕ
private_or_empty none = []
private_or_empty (some row) = row.private_key

abbrev pub public_or_empty : Option LocalIdentityRow → List ℕ
public_or_empty none = []
public_or_empty (some row) = row.public_key

unfoldable pub set_local_registration_id : ℕ → ℕ → Exec (Connection SignalTables) (Unit {0})
set_local_registration_id now registration_id = statement (λ t. (
  ok tt,
  record t {
    local_identity = some (record {
      registration_id = registration_id;
      private_key = private_or_empty t.local_identity;
      public_key = public_or_empty t.local_identity;
      created_at = now;
      updated_at = now;
    });
  },
))

unfoldable pub identity_count : Exec (Connection SignalTables) ℕ
identity_count = unwrap_or 0 (statement (λ t. (ok (length t.identity_keys), t)))

unfoldable pub delete_identity : String × ℕ → Exec (Connection SignalTables) (Unit {0})
delete_identity address =
    statement (λ t. (ok tt, record t { identity_keys = remove address t.identity_keys }))

unfoldable pub clear_all_identities : Exec (Connection SignalTables) (Unit {0})
clear_all_identities = statement (λ t. (ok tt, record t { identity_keys = [] }))

unfoldable pub clear_local_identity : Exec (Connection SignalTables) (Unit {0})
clear_local_identity = statement (λ t. (ok tt, record t { local_identity = none }))

-- `impl IdentityKeyStore` and `impl ExtendedIdentityStore`
abbrev pub sqlite_identity_store :
    {IdentityKey IdentityKeyPair : Type 0} ⦃key_eq : Eq IdentityKey⦄
    → IdentityFormat IdentityKey IdentityKeyPair
    → IdentityStore (Connection SignalTables) IdentityKey IdentityKeyPair
sqlite_identity_store format = record {
  get_identity_key_pair = get_identity_key_pair format;
  get_local_registration_id = get_local_registration_id;
  save_identity = save_identity format;
  is_trusted_identity = is_trusted_identity format;
  get_identity = get_identity format;
  identity_count = identity_count;
  set_local_identity_key_pair = set_local_identity_key_pair format;
  set_local_registration_id = set_local_registration_id;
  get_peer_identity = get_peer_identity format;
  delete_identity = delete_identity;
  clear_all_identities = clear_all_identities;
  clear_local_identity = clear_local_identity;
}
