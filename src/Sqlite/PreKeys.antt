-- ===== src/Sqlite/PreKeys.antt =====
-- `SqlitePreKeyStore` of src/signal_storage.rs.
pub mod Laws
use lotl.Prelude.{number_eq, ℕ, Option, none, List, [], length}
use lotl.Errors.{signal_protocol, invalid_pre_key_id, database, query_returned_no_rows}
use lotl.Exec.{Result, ok, err, Exec, raise, lift, caught, map_err, unwrap_or, ◌>>=◌}
use lotl.Sql.{Connection, statement}
use lotl.HashMap.{lookup, insert, remove, max_key}
use lotl.Sqlite.Tables.{SignalTables, PreKeyRow}
use lotl.Sqlite.KeyTable.{storage_error, row_or_none}
use lotl.StorageTrait.{PreKeyStore}

-- `now` is what SQLite's strftime('%s', 'now') reads.
module _ {PreKey : Type 0} (deserialize : List ℕ → Result PreKey)
    (serialize : PreKey → Result (List ℕ)) where
  unfoldable pub loaded : Result PreKeyRow → Exec (Connection SignalTables) PreKey
  loaded (ok row) = map_err storage_error (lift (deserialize row.key_data))
  loaded (err (database query_returned_no_rows)) = raise (signal_protocol invalid_pre_key_id)
  loaded (err e) = raise (storage_error e)

  unfoldable pub get_pre_key : ℕ → Exec (Connection SignalTables) PreKey
  unfolding loaded
  get_pre_key prekey_id = do
    result ← caught (statement (λ t. (row_or_none (lookup prekey_id t.pre_keys), t)))
    loaded result

  unfoldable pub save_pre_key : ℕ → ℕ → PreKey → Exec (Connection SignalTables) (Unit {0})
  save_pre_key now prekey_id record' = do
    serialized ← map_err storage_error (lift (serialize record'))
    map_err storage_error (
        statement (λ t. (
          ok tt,
          record t {
            pre_keys =
                insert prekey_id
                  (record { key_data = serialized; created_at = now; used_at = none }) t.pre_keys;
          },
        )))

unfoldable pub remove_pre_key : ℕ → Exec (Connection SignalTables) (Unit {0})
remove_pre_key prekey_id =
    map_err storage_error
      (statement (λ t. (ok tt, record t { pre_keys = remove prekey_id t.pre_keys })))

unfoldable pub pre_key_count : Exec (Connection SignalTables) ℕ
pre_key_count = unwrap_or 0 (statement (λ t. (ok (length t.pre_keys), t)))

unfoldable pub clear_all_pre_keys : Exec (Connection SignalTables) (Unit {0})
clear_all_pre_keys = statement (λ t. (ok tt, record t { pre_keys = [] }))

unfoldable pub get_max_pre_key_id : Exec (Connection SignalTables) (Option ℕ)
get_max_pre_key_id = unwrap_or none (statement (λ t. (ok (max_key t.pre_keys), t)))

unfoldable pub delete_pre_key : ℕ → Exec (Connection SignalTables) (Unit {0})
delete_pre_key id = statement (λ t. (ok tt, record t { pre_keys = remove id t.pre_keys }))

-- The store as rotation sees it.
abbrev pub pre_key_store :
    {PreKey : Type 0}
    → (List ℕ → Result PreKey)
    → (PreKey → Result (List ℕ))
    → ℕ
    → PreKeyStore (Connection SignalTables) PreKey
pre_key_store deserialize serialize now = record {
  get_pre_key = get_pre_key deserialize serialize;
  save_pre_key = save_pre_key deserialize serialize now;
  pre_key_count = pre_key_count;
  get_max_pre_key_id = get_max_pre_key_id;
  delete_pre_key = delete_pre_key;
}
