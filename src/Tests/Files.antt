-- ===== src/Tests/Files.antt =====
-- Runs of the key file, of the schema version and of the opening and closing of the storage.
use lotl.Prelude.{
  string_eq, ℕ, ◌≡◌, ◌≢◌, ◌↔◌, refl, String, true, false, none, some, List, [], ◌∷◌, eq_iff,
}
use lotl.Prelude.Int.{pos}
use lotl.Exec.{ok, ◌>>=◌}
use lotl.Libsignal.{Messages}
use lotl.Sqlite.Tables.{SignalTables}
use lotl.Sqlite.Storage.Ops.{
  establish_session_from_bundle, encrypt_message, decrypt_message, is_returned, ops_return,
}
use lotl.Sql.{Connection, quiet, statement, within}
use lotl.HashMap.{lookup}
use lotl.Database.{empty_database}
use lotl.KeyFile.{retrieve_db_key, get_or_create_db_key}
use lotl.KeyFile.Durable.{sound, Kept, get_or_create_db_key-again, get_or_create_db_key-loses_key}
use lotl.DbConnection.{SchemaRow, get_schema_version, update_schema_version}
use lotl.Device.{Tables, schema_part}
use lotl.Sqlite.Storage
use lotl.Sqlite.Storage.{Handle, initialize_schema, close, create_tables}
use lotl.Sqlite.Storage.Version.{
  set_up_again, row_count, versioned, get_schema_version-update_schema_version,
}
use lotl.Sqlite.Storage.Lifecycle.{
  opened, closed, Steps, none_yet, next, initializes, closes, ever, is_opened, is_closed, Serves,
  Serves-iff,
}

on_disk : ◌≢◌ {A = String} "chat.db" ":memory:"
on_disk e = cc ((eq_iff "chat.db" ":memory:").1 e)

abbrev old_key : List ℕ
old_key =
    1 ∷ 2 ∷ 3 ∷ 4 ∷ 5 ∷ 6 ∷ 7 ∷ 8 ∷ 9 ∷ 10 ∷ 11 ∷ 12 ∷ 13 ∷ 14 ∷ 15 ∷ 16 ∷ 17 ∷ 18 ∷ 19 ∷ 20 ∷ 21
    ∷ 22 ∷ 23 ∷ 24 ∷ 25 ∷ 26 ∷ 27 ∷ 28 ∷ 29 ∷ 30 ∷ 31 ∷ 32 ∷ []

abbrev new_key : List ℕ
new_key =
    7 ∷ 7 ∷ 7 ∷ 7 ∷ 7 ∷ 7 ∷ 7 ∷ 7 ∷ 7 ∷ 7 ∷ 7 ∷ 7 ∷ 7 ∷ 7 ∷ 7 ∷ 7 ∷ 7 ∷ 7 ∷ 7 ∷ 7 ∷ 7 ∷ 7 ∷ 7 ∷ 7
    ∷ 7 ∷ 7 ∷ 7 ∷ 7 ∷ 7 ∷ 7 ∷ 7 ∷ 8 ∷ []

abbrev files : List (String × List ℕ)
files = ("chat.db.key", old_key) ∷ []

get_or_create_db_key-again_example :
    Kept "chat.db" on_disk (get_or_create_db_key "chat.db" new_key (sound []))
get_or_create_db_key-again_example = get_or_create_db_key-again "chat.db" on_disk [] new_key refl

get_or_create_db_key-loses_key_example :
    (retrieve_db_key "chat.db" (sound files) ≡ (ok old_key, sound files))
    × ((get_or_create_db_key "chat.db" new_key (record { files = files; faults = some 0 ∷ [] })).0
        ≡ ok new_key)
    × ((retrieve_db_key "chat.db"
          (get_or_create_db_key "chat.db" new_key
            (record { files = files; faults = some 0 ∷ [] })).1).0
        ≡ ok new_key)
unfolding lookup
get_or_create_db_key-loses_key_example =
    get_or_create_db_key-loses_key "chat.db" on_disk files old_key new_key 0 refl refl refl

abbrev first_row : SchemaRow
first_row = record { version = pos 1; updated_at = 10 }

abbrev tables : Tables
tables = record {
  signal = record {
    sessions = [];
    local_identity = none;
    identity_keys = [];
    pre_keys = [];
    signed_pre_keys = [];
    kyber_pre_keys = [];
  };
  app = empty_database false;
  schema_info = none;
}

-- Two starts after the version was written leave three rows.
get_schema_version-update_schema_version_example :
    ((within schema_part get_schema_version (
        set_up_again
          (30 ∷ 40 ∷ [])
          (within schema_part
            (update_schema_version 20 (pos 2))
            (versioned tables (first_row ∷ []))).1)).0
      ≡ ok (pos 2))
    × (row_count (
          set_up_again
            (30 ∷ 40 ∷ [])
            (within schema_part
              (update_schema_version 20 (pos 2))
              (versioned tables (first_row ∷ []))).1)
        ≡ 3)
get_schema_version-update_schema_version_example =
    get_schema_version-update_schema_version 20 (pos 2) tables first_row [] (30 ∷ 40 ∷ [])

abbrev start : Handle
start = Storage.new (quiet tables)

abbrev open_handle : Handle
open_handle = (initialize_schema 5 start).1

abbrev closed_handle : Handle
closed_handle = (close open_handle).1

abbrev opened_again : Handle
opened_again = (initialize_schema 6 closed_handle).1

three_calls : Steps start (opened ∷ closed ∷ opened ∷ []) opened_again
unfolding initialize_schema close within statement ◌>>=◌
three_calls =
    next _ opened closed_handle opened_again
      (next _ closed open_handle closed_handle
        (next [] opened start open_handle none_yet (initializes 5 start refl))
        (closes open_handle refl))
      (initializes 6 closed_handle refl)

Serves-iff_example : Serves opened_again ↔ (
    (ever is_opened (opened ∷ closed ∷ opened ∷ []) ≡ true)
    × (ever is_closed (opened ∷ closed ∷ opened ∷ []) ≡ false))
Serves-iff_example =
    Serves-iff (quiet tables) (opened ∷ closed ∷ opened ∷ []) opened_again three_calls

-- A cipher that sends the text as it is.
abbrev plain : Messages (Connection SignalTables) ℕ (List ℕ)
plain = record {
  process_prekey_bundle = λ time address bundle c. (ok tt, c);
  message_encrypt = λ time text address c. (ok text, c);
  message_decrypt = λ text address c. (ok text, c);
}

-- The storage was closed in between, and its accessors panic.
ops_return_example :
    (is_returned (establish_session_from_bundle plain 7 ("bob", 1) 0 opened_again).0 ≡ true)
    × (is_returned (encrypt_message plain 7 ("bob", 1) (1 ∷ []) opened_again).0 ≡ true)
    × (is_returned (decrypt_message plain ("bob", 1) (1 ∷ []) opened_again).0 ≡ true)
ops_return_example =
    ops_return plain (quiet tables) (opened ∷ closed ∷ opened ∷ []) opened_again 7 ("bob", 1) 0
      (1 ∷ []) (1 ∷ []) three_calls
