-- ===== src/Sqlite/SignedPreKeys.antt =====
-- `SqliteSignedPreKeyStore` of src/signal_storage.rs.
use lotl.Prelude.{ℕ, refl, Option, List}
use lotl.Errors.{invalid_signed_pre_key_id}
use lotl.Exec.{Exec}
use lotl.Sql.{Connection}
use lotl.Sqlite.Tables.{SignalTables, KeyRow}
use lotl.Sqlite.KeyTable
use lotl.Sqlite.KeyTable.{Table, RecordFormat}
use lotl.StorageTrait.{RotatingStore}

-- The table `signed_pre_keys`.
abbrev pub signed_pre_keys_table : Table SignalTables KeyRow
signed_pre_keys_table = record {
  rows = λ t. t.signed_pre_keys;
  set_rows = λ l t. record t { signed_pre_keys = l };
  rows-set_rows = λ l t. refl;
}

module _ {Signed : Type 0} (format : RecordFormat Signed) where
  unfoldable pub get_signed_pre_key : ℕ → Exec (Connection SignalTables) Signed
  unfolding KeyTable.get_key
  get_signed_pre_key = KeyTable.get_key signed_pre_keys_table format invalid_signed_pre_key_id

  unfoldable pub save_signed_pre_key : ℕ → Signed → Exec (Connection SignalTables) (Unit {0})
  unfolding KeyTable.save_key
  save_signed_pre_key = KeyTable.save_key signed_pre_keys_table format invalid_signed_pre_key_id

  unfoldable pub signed_pre_key_count : Exec (Connection SignalTables) ℕ
  unfolding KeyTable.key_count
  signed_pre_key_count = KeyTable.key_count signed_pre_keys_table format invalid_signed_pre_key_id

  unfoldable pub clear_all_signed_pre_keys : Exec (Connection SignalTables) (Unit {0})
  unfolding KeyTable.clear_all_keys
  clear_all_signed_pre_keys =
      KeyTable.clear_all_keys signed_pre_keys_table format invalid_signed_pre_key_id

  unfoldable pub get_max_signed_pre_key_id : Exec (Connection SignalTables) (Option ℕ)
  unfolding KeyTable.get_max_key_id
  get_max_signed_pre_key_id =
      KeyTable.get_max_key_id signed_pre_keys_table format invalid_signed_pre_key_id

  unfoldable pub delete_signed_pre_key : ℕ → Exec (Connection SignalTables) (Unit {0})
  unfolding KeyTable.delete_key
  delete_signed_pre_key = KeyTable.delete_key signed_pre_keys_table format invalid_signed_pre_key_id

  unfoldable pub get_signed_pre_keys_older_than : ℕ → Exec (Connection SignalTables) (List ℕ)
  unfolding KeyTable.get_keys_older_than
  get_signed_pre_keys_older_than =
      KeyTable.get_keys_older_than signed_pre_keys_table format invalid_signed_pre_key_id

  -- The store as rotation sees it.
  abbrev pub signed_pre_key_store : RotatingStore (Connection SignalTables) Signed
  signed_pre_key_store = record {
    get_key = get_signed_pre_key;
    save_key = save_signed_pre_key;
    key_count = signed_pre_key_count;
    get_max_key_id = get_max_signed_pre_key_id;
    delete_key = delete_signed_pre_key;
    get_keys_older_than = get_signed_pre_keys_older_than;
  }
