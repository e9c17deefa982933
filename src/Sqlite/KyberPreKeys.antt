-- ===== src/Sqlite/KyberPreKeys.antt =====
-- `SqliteKyberPreKeyStore` of src/signal_storage.rs.
use lotl.Prelude.{number_eq, false, ◌==◌, update_where, ℕ, refl, Option, List}
use lotl.Errors.{invalid_kyber_pre_key_id}
use lotl.Exec.{ok, Exec, map_err}
use lotl.Sql.{Connection, statement}
use lotl.Sqlite.Tables.{SignalTables, KeyRow}
use lotl.Sqlite.KeyTable
use lotl.Sqlite.KeyTable.{Table, RecordFormat, storage_error}
use lotl.StorageTrait.{RotatingStore}

-- The table `kyber_pre_keys`.
abbrev pub kyber_pre_keys_table : Table SignalTables KeyRow
kyber_pre_keys_table = record {
  rows = λ t. t.kyber_pre_keys;
  set_rows = λ l t. record t { kyber_pre_keys = l };
  rows-set_rows = λ l t. refl;
}

module _ {Kyber : Type 0} (format : RecordFormat Kyber) where
  unfoldable pub get_kyber_pre_key : ℕ → Exec (Connection SignalTables) Kyber
  unfolding KeyTable.get_key
  get_kyber_pre_key = KeyTable.get_key kyber_pre_keys_table format invalid_kyber_pre_key_id

  unfoldable pub save_kyber_pre_key : ℕ → Kyber → Exec (Connection SignalTables) (Unit {0})
  unfolding KeyTable.save_key
  save_kyber_pre_key = KeyTable.save_key kyber_pre_keys_table format invalid_kyber_pre_key_id

  unfoldable pub kyber_pre_key_count : Exec (Connection SignalTables) ℕ
  unfolding KeyTable.key_count
  kyber_pre_key_count = KeyTable.key_count kyber_pre_keys_table format invalid_kyber_pre_key_id

  unfoldable pub clear_all_kyber_pre_keys : Exec (Connection SignalTables) (Unit {0})
  unfolding KeyTable.clear_all_keys
  clear_all_kyber_pre_keys =
      KeyTable.clear_all_keys kyber_pre_keys_table format invalid_kyber_pre_key_id

  unfoldable pub get_max_kyber_pre_key_id : Exec (Connection SignalTables) (Option ℕ)
  unfolding KeyTable.get_max_key_id
  get_max_kyber_pre_key_id =
      KeyTable.get_max_key_id kyber_pre_keys_table format invalid_kyber_pre_key_id

  unfoldable pub delete_kyber_pre_key : ℕ → Exec (Connection SignalTables) (Unit {0})
  unfolding KeyTable.delete_key
  delete_kyber_pre_key = KeyTable.delete_key kyber_pre_keys_table format invalid_kyber_pre_key_id

  unfoldable pub get_kyber_pre_keys_older_than : ℕ → Exec (Connection SignalTables) (List ℕ)
  unfolding KeyTable.get_keys_older_than
  get_kyber_pre_keys_older_than =
      KeyTable.get_keys_older_than kyber_pre_keys_table format invalid_kyber_pre_key_id

  -- UPDATE kyber_pre_keys SET is_current = FALSE WHERE id = ?
  unfoldable pub mark_kyber_pre_key_used : ℕ → Exec (Connection SignalTables) (Unit {0})
  mark_kyber_pre_key_used kyber_prekey_id = map_err storage_error (
      statement (λ t. (
        ok tt,
        record t {
          kyber_pre_keys =
              update_where (λ entry. entry.0 == kyber_prekey_id)
                (λ entry. (entry.0, record (entry.1) { is_current = false })) t.kyber_pre_keys;
        },
      )))

  -- The store as rotation sees it.
  abbrev pub kyber_pre_key_store : RotatingStore (Connection SignalTables) Kyber
  kyber_pre_key_store = record {
    get_key = get_kyber_pre_key;
    save_key = save_kyber_pre_key;
    key_count = kyber_pre_key_count;
    get_max_key_id = get_max_kyber_pre_key_id;
    delete_key = delete_kyber_pre_key;
    get_keys_older_than = get_kyber_pre_keys_older_than;
  }
