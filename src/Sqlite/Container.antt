-- ===== src/Sqlite/Container.antt =====
-- `SqliteStorage` of src/signal_storage.rs as a storage container: its key stores share one
-- connection.
use lotl.Prelude.{ℕ, refl, List, []}
use lotl.Errors.{invalid_signed_pre_key_id, invalid_kyber_pre_key_id}
use lotl.Prelude.{◌≡◌}
use lotl.Exec.{Result}
use lotl.Sql.{Connection}
use lotl.HashMap.Values.{map_values}
use lotl.StorageTrait.{SignalStorageContainer}
use lotl.StorageTrait.Container.{ContainerLaws, RotatingLaws-viewed, PreKeyLaws-viewed}
use lotl.StorageTrait.Laws.{is_seconds_before}
use lotl.Sqlite.Tables.{SignalTables}
use lotl.Sqlite.KeyTable.{RecordFormat}
use lotl.Sqlite.KeyTable.Laws.{decode, FormatLaws, KeyTable-RotatingLaws, encode}
use lotl.Sqlite.SignedPreKeys.{
  signed_pre_keys_table, signed_pre_key_store, get_signed_pre_key, save_signed_pre_key,
  signed_pre_key_count, get_max_signed_pre_key_id, delete_signed_pre_key,
  get_signed_pre_keys_older_than,
}
use lotl.Sqlite.KyberPreKeys.{
  kyber_pre_keys_table, kyber_pre_key_store, get_kyber_pre_key, save_kyber_pre_key,
  kyber_pre_key_count, get_max_kyber_pre_key_id, delete_kyber_pre_key,
  get_kyber_pre_keys_older_than,
}
use lotl.Sqlite.PreKeys.{pre_key_store}
use lotl.Sqlite.PreKeys.Laws.{
  BytesLaws, sqlite-PreKeyLaws, data_of, data_for, entries, decode as decode_data,
}

module _ {Signed Kyber PreKey : Type 0} (signed_format : RecordFormat Signed)
    (kyber_format : RecordFormat Kyber) (deserialize : List ℕ → Result PreKey)
    (serialize : PreKey → Result (List ℕ)) where
  -- `now` is what SQLite's strftime('%s', 'now') reads.
  abbrev pub sqlite_storage :
      ℕ → SignalStorageContainer (Connection SignalTables) Signed Kyber PreKey
  sqlite_storage now = record {
    signed_pre_key_store = signed_pre_key_store signed_format;
    kyber_pre_key_store = kyber_pre_key_store kyber_format;
    pre_key_store = pre_key_store deserialize serialize now;
  }

  abbrev pub signed_keys : Connection SignalTables → List (ℕ × Signed)
  signed_keys c = decode signed_format c.tables.signed_pre_keys

  abbrev pub kyber_keys : Connection SignalTables → List (ℕ × Kyber)
  kyber_keys c = decode kyber_format c.tables.kyber_pre_keys

  abbrev pub pre_keys : Connection SignalTables → List (ℕ × PreKey)
  pre_keys = entries deserialize

  -- The sessions and the identities.
  abbrev pub rest : Connection SignalTables → SignalTables
  rest c = record (c.tables) { pre_keys = []; signed_pre_keys = []; kyber_pre_keys = [] }

  abbrev bare : SignalTables → SignalTables
  bare t = record t { pre_keys = []; signed_pre_keys = []; kyber_pre_keys = [] }

  abbrev signed_view : SignalTables → List (ℕ × Kyber) × List (ℕ × PreKey) × SignalTables
  signed_view t = (
    decode kyber_format t.kyber_pre_keys,
    decode_data deserialize (map_values data_of t.pre_keys),
    bare t,
  )

  abbrev kyber_view : SignalTables → List (ℕ × Signed) × List (ℕ × PreKey) × SignalTables
  kyber_view t = (
    decode signed_format t.signed_pre_keys,
    decode_data deserialize (map_values data_of t.pre_keys),
    bare t,
  )

  abbrev pre_key_view : SignalTables → List (ℕ × Signed) × List (ℕ × Kyber) × SignalTables
  pre_key_view t =
      (decode signed_format t.signed_pre_keys, decode kyber_format t.kyber_pre_keys, bare t)

  module _ (signed_format_laws : FormatLaws signed_format)
      (kyber_format_laws : FormatLaws kyber_format)
      (bytes_laws : BytesLaws deserialize serialize) where
    abbrev SignedOk : SignalTables → Type 0
    SignedOk t =
        t.signed_pre_keys
        ≡ encode signed_format signed_format_laws (decode signed_format t.signed_pre_keys)

    abbrev KyberOk : SignalTables → Type 0
    KyberOk t =
        t.kyber_pre_keys
        ≡ encode kyber_format kyber_format_laws (decode kyber_format t.kyber_pre_keys)

    abbrev PreKeysOk : SignalTables → Type 0
    PreKeysOk t =
        map_values data_of t.pre_keys
        ≡ map_values (data_for bytes_laws) (decode_data deserialize (map_values data_of t.pre_keys))

    -- The engine refuses nothing, and every key row is one that the code writes for the record
    -- that it holds: its bytes, its signature, its times in seconds, and not current.
    pub record IsOpen (c : Connection SignalTables) : Type 0 where
      pub quiet_engine : c.faults ≡ []
      pub signed_rows : SignedOk c.tables
      pub kyber_rows : KyberOk c.tables
      pub pre_key_rows : PreKeysOk c.tables

    abbrev without_signed : SignalTables → SignalTables
    without_signed t = record t { signed_pre_keys = [] }

    abbrev without_kyber : SignalTables → SignalTables
    without_kyber t = record t { kyber_pre_keys = [] }

    pub sqlite-ContainerLaws :
        {KeyPair : Type 0} (now : ℕ) (new_pre_key : ℕ → KeyPair → PreKey)
        → ContainerLaws IsOpen signed_keys kyber_keys pre_keys rest
            (sqlite_storage now)
            new_pre_key
            (is_seconds_before signed_format.timestamp)
            (is_seconds_before kyber_format.timestamp)
    unfolding get_signed_pre_key save_signed_pre_key signed_pre_key_count get_max_signed_pre_key_id
        delete_signed_pre_key get_signed_pre_keys_older_than get_kyber_pre_key save_kyber_pre_key
        kyber_pre_key_count get_max_kyber_pre_key_id delete_kyber_pre_key
        get_kyber_pre_keys_older_than
    sqlite-ContainerLaws now new_pre_key = record {
      signed_laws =
          RotatingLaws-viewed
            (λ c o. record {
              quiet_engine = o.quiet_engine;
              well_formed = o.signed_rows;
              rest_ready = (o.kyber_rows, o.pre_key_rows);
            })
            (λ c r. record {
              quiet_engine = r.quiet_engine;
              signed_rows = r.well_formed;
              kyber_rows = r.rest_ready.0;
              pre_key_rows = r.rest_ready.1;
            })
            signed_view
            (KeyTable-RotatingLaws signed_pre_keys_table signed_format invalid_signed_pre_key_id
              signed_format_laws without_signed (λ l t. refl) (λ t. KyberOk t × PreKeysOk t));
      kyber_laws =
          RotatingLaws-viewed
            (λ c o. record {
              quiet_engine = o.quiet_engine;
              well_formed = o.kyber_rows;
              rest_ready = (o.signed_rows, o.pre_key_rows);
            })
            (λ c r. record {
              quiet_engine = r.quiet_engine;
              kyber_rows = r.well_formed;
              signed_rows = r.rest_ready.0;
              pre_key_rows = r.rest_ready.1;
            })
            kyber_view
            (KeyTable-RotatingLaws kyber_pre_keys_table kyber_format invalid_kyber_pre_key_id
              kyber_format_laws without_kyber (λ l t. refl) (λ t. SignedOk t × PreKeysOk t));
      pre_key_laws =
          PreKeyLaws-viewed
            (λ c o. record {
              quiet_engine = o.quiet_engine;
              well_formed = o.pre_key_rows;
              rest_ready = (o.signed_rows, o.kyber_rows);
            })
            (λ c r. record {
              quiet_engine = r.quiet_engine;
              pre_key_rows = r.well_formed;
              signed_rows = r.rest_ready.0;
              kyber_rows = r.rest_ready.1;
            })
            pre_key_view
            (sqlite-PreKeyLaws deserialize serialize bytes_laws (λ t. SignedOk t × KyberOk t) now
              new_pre_key);
    }
