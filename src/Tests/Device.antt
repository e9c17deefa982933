-- ===== src/Tests/Device.antt =====
-- A device: its first start, its bundle, its maintenance. A key is a number, and a record of a signed
-- or a Kyber pre-key its id and its time.
use lotl.Prelude.{number_eq, ℕ, ◌≡◌, refl, ◌+◌, false, true, none, some, List, [], ◌∷◌, arith}
use lotl.Errors.{sqlite_failure, database, key_not_found, storage, text}
use lotl.Exec.{Result, ok, err}
use lotl.Exec.Ends.{Ends}
use lotl.Sql.{quiet}
use lotl.Types.{default_config}
use lotl.Database.{empty_database}
use lotl.HashMap.{max_key}
use lotl.HashMap.Values.{map_values}
use lotl.Libsignal.{SignedRecordTotal}
use lotl.Sqlite.Tables.{SignalTables}
use lotl.Sqlite.KeyTable.{storage_error}
use lotl.Sqlite.KeyTable.Laws.{decode, encode}
use lotl.Sqlite.PreKeys.Laws.{BytesLaws, decode as decode_data}
use lotl.Sqlite.Container.{pre_keys, sqlite_storage}
use lotl.Sqlite.Identities.{get_identity_key_pair}
use lotl.Sqlite.Storage.{with_stores, new_storage}
use lotl.Maintenance.{Readings, as_storage_error, perform_key_maintenance}
use lotl.Maintenance.Unread.{perform_key_maintenance_unread}
use lotl.Maintenance.Completes.{Times, read, Maintained, perform_key_maintenance-Ends}
use lotl.Api.State.{Lotl, Signal, Draws}
use lotl.Api.Laws.{SignalLaws, IsOpenFor, container_laws}
use lotl.Api.Identity.{initialize_identity}
use lotl.Api.Identity.Stored.{
  with_identity, get_identity_key_pair-row, get_local_registration_id-row, row_for,
}
use lotl.Api.Identity.FirstStart.{NewDevice, initialize_identity-NewDevice}
use lotl.Api.Identity.Interrupted.{faulty, initialize_identity-interrupted}
use lotl.Api.Bundles.{current_bundle, generate_prekey_bundle}
use lotl.Api.Bundles.Fresh.{BundleOf, generate_prekey_bundle-Ends}
use lotl.Api.Calls.{started}
use lotl.Api.Start.{Running, unopened, started-Running}
use lotl.Tests.Codec.{bundle_format, bundle_laws}
use lotl.Tests.Keys.{Key, api, api_laws, pre_key}
use lotl.Tests.Sqlite.{format, format_laws, identities, key_of}

abbrev pub byte_of : ℕ → Result (List ℕ)
byte_of k = ok (k ∷ [])

abbrev pub byte_laws : BytesLaws key_of byte_of
byte_laws = record { bytes = λ k. k ∷ []; serialize_lem = λ k. refl; deserialize_lem = λ k. refl }

abbrev pub signal : Signal ℕ ℕ Key Key ℕ ℕ ℕ ℕ
signal = record {
  identities = identities;
  signed = api;
  kyber = api;
  signed_format = format;
  kyber_format = format;
  pre_key_from = key_of;
  pre_key_bytes = byte_of;
  new_pre_key = pre_key;
}

abbrev total : SignedRecordTotal api
total = record { signature = λ i k. i + k; sign_lem = λ i k. refl; stamped = λ r. (r.1, refl) }

abbrev signal_laws : SignalLaws signal
signal_laws = record {
  pair_from_lem = λ p. refl;
  signed_laws = api_laws;
  signed_total = total;
  signed_format_laws = format_laws;
  kyber_format_laws = format_laws;
  pre_key_laws = byte_laws;
}

abbrev draws : Draws ℕ ℕ Key
draws = record {
  now = 1_700_000_000;
  clock = ok 1_700_000_000_000;
  identity_key_pair = 7;
  registration = 20_000;
  key_pair = 8;
  kyber_record = ok (1, 1_700_000_000_000);
  pre_key_pair = λ i. i + 100;
}

abbrev pub no_tables : SignalTables
no_tables = record {
  sessions = [];
  local_identity = none;
  identity_keys = [];
  pre_keys = [];
  signed_pre_keys = [];
  kyber_pre_keys = [];
}

no_tables-IsOpen : IsOpenFor signal signal_laws (quiet no_tables)
unfolding decode encode decode_data map_values
no_tables-IsOpen = record {
  quiet_engine = refl;
  signed_rows = refl;
  kyber_rows = refl;
  pre_key_rows = refl;
}

initialize_identity-NewDevice_example :
    Ends
      (λ a t. NewDevice signal signal_laws draws (1, 1_700_000_000_000) 1_700_000_000_000 t)
      (initialize_identity signal draws (quiet no_tables))
unfolding decode decode_data map_values
initialize_identity-NewDevice_example =
    initialize_identity-NewDevice signal signal_laws draws (1, 1_700_000_000_000) 1_700_000_000_000
      no_tables refl refl refl no_tables-IsOpen refl refl refl

initialize_identity-interrupted_example :
    (initialize_identity signal draws
        (faulty no_tables (none ∷ none ∷ none ∷ some (sqlite_failure 13) ∷ []))
      ≡ (
        err (storage_error (database (sqlite_failure 13))),
        quiet (with_identity signal signal_laws draws no_tables),
      ))
    × ((others : Draws ℕ ℕ Key)
        → initialize_identity signal others
            (quiet (with_identity signal signal_laws draws no_tables))
          ≡ (ok tt, quiet (with_identity signal signal_laws draws no_tables)))
    × (current_bundle signal bundle_format
          (quiet (with_identity signal signal_laws draws no_tables))
        ≡ (
          err (key_not_found (text "No pre-keys available")),
          quiet (with_identity signal signal_laws draws no_tables),
        ))
unfolding decode_data map_values
initialize_identity-interrupted_example =
    initialize_identity-interrupted signal signal_laws bundle_format draws 1_700_000_000_000
      no_tables (sqlite_failure 13) refl refl no_tables-IsOpen refl

-- The device that the first start makes, with one pre-key of each kind.
abbrev device : SignalTables
device = record no_tables {
  local_identity = some (row_for signal signal_laws draws);
  pre_keys = (4, record { key_data = 9 ∷ []; created_at = 3; used_at = none }) ∷ [];
  signed_pre_keys =
      (
        1,
        record {
          key_data = 1 ∷ 5000 ∷ [];
          signature = [];
          created_at = 5;
          expires_at = 2_592_005;
          is_current = false;
        },
      )
      ∷ [];
  kyber_pre_keys =
      (
        2,
        record {
          key_data = 2 ∷ 6000 ∷ [];
          signature = [];
          created_at = 6;
          expires_at = 2_592_006;
          is_current = false;
        },
      )
      ∷ [];
}

device-IsOpen : IsOpenFor signal signal_laws (quiet device)
unfolding decode encode decode_data map_values
device-IsOpen = record {
  quiet_engine = refl;
  signed_rows = refl;
  kyber_rows = refl;
  pre_key_rows = refl;
}

abbrev instance_of_lotl : Lotl
instance_of_lotl = record {
  db_connection =
      quiet (record { signal = device; app = empty_database false; schema_info = none });
  config = default_config;
  storage = some (with_stores true new_storage);
}

generate_prekey_bundle-Ends_example :
    Ends
      (λ bytes t.
        BundleOf signal signal_laws bundle_format bundle_laws 7 3616 instance_of_lotl bytes t)
      (generate_prekey_bundle signal bundle_format 5 instance_of_lotl)
unfolding decode decode_data map_values
generate_prekey_bundle-Ends_example =
    generate_prekey_bundle-Ends signal signal_laws bundle_format bundle_laws 5 7 3616
      (row_for signal signal_laws draws) instance_of_lotl (with_stores true new_storage) refl
      (record {
        sessions = refl;
        identities = refl;
        pre_keys = refl;
        signed_pre_keys = refl;
        kyber_pre_keys = refl;
      })
      (record {
        is_open = device-IsOpen;
        identity = get_identity_key_pair-row signal signal_laws draws (quiet device) refl refl;
        registered =
            get_local_registration_id-row signal signal_laws draws (quiet device) refl refl;
        signed_left = omega arith;
        kyber_left = omega arith;
        pre_keys_left = omega arith;
      })
      refl refl

abbrev times : Times
times = record {
  signed_check = 1_700_000_000_000;
  signed_rotation = 1_700_000_000_001;
  kyber_check = 1_700_000_000_002;
  kyber_rotation = 1_700_000_000_003;
  signed_cleanup = 1_700_000_000_004;
  kyber_cleanup = 1_700_000_000_005;
}

perform_key_maintenance-Ends_example :
    Ends
      (Maintained
        (sqlite_storage format format key_of byte_of 5)
        api
        api
        pre_key
        (container_laws signal signal_laws 5)
        (quiet device))
      (perform_key_maintenance
        (sqlite_storage format format key_of byte_of 5)
        (get_identity_key_pair identities)
        api
        api
        pre_key
        (read times)
        8
        9
        (λ i. i + 100)
        (quiet device))
unfolding decode decode_data map_values max_key
perform_key_maintenance-Ends_example =
    perform_key_maintenance-Ends (sqlite_storage format format key_of byte_of 5) api api pre_key
      (container_laws signal signal_laws 5) (get_identity_key_pair identities) 7 times 8 9
      (λ i. i + 100) (quiet device) api_laws total total
      (get_identity_key_pair-row signal signal_laws draws (quiet device) refl refl)
      (record {
        ready = device-IsOpen;
        signed_ids = (tt, tt);
        kyber_ids = (tt, tt);
        pre_key_ids = (tt, tt);
        signed_room = omega arith;
        kyber_room = omega arith;
        pre_key_room = omega arith;
      })

started-Running_example :
    Ends
      (λ a t.
        Running signal signal_laws bundle_format bundle_laws draws
          (1, 1_700_000_000_000)
          1_700_000_000_000
          default_config
          (empty_database true)
          t)
      (started signal draws (unopened default_config no_tables (empty_database true) none))
unfolding decode decode_data map_values
started-Running_example =
    started-Running signal signal_laws bundle_format bundle_laws draws (1, 1_700_000_000_000)
      1_700_000_000_000 default_config no_tables (empty_database true) none refl refl refl
      no_tables-IsOpen refl refl refl

-- The clock stands before 1970.
abbrev unread : Readings
unread = record {
  signed_check = err (storage (text "before 1970"));
  signed_rotation = err (storage (text "before 1970"));
  kyber_check = err (storage (text "before 1970"));
  kyber_rotation = err (storage (text "before 1970"));
  signed_cleanup = err (storage (text "before 1970"));
  kyber_cleanup = err (storage (text "before 1970"));
}

perform_key_maintenance_unread_example :
    perform_key_maintenance
      (sqlite_storage format format key_of byte_of 5)
      (get_identity_key_pair identities)
      api
      api
      pre_key
      unread
      8
      9
      (λ i. i + 100)
      (quiet device)
    ≡ (err (as_storage_error (storage (text "before 1970"))), quiet device)
perform_key_maintenance_unread_example =
    perform_key_maintenance_unread (sqlite_storage format format key_of byte_of 5) api api pre_key
      (container_laws signal signal_laws 5) (get_identity_key_pair identities) 7 unread
      (storage (text "before 1970")) 8 9 (λ i. i + 100) (quiet device) total
      (get_identity_key_pair-row signal signal_laws draws (quiet device) refl refl) refl refl
      device-IsOpen
