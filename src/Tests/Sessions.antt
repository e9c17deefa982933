-- ===== src/Tests/Sessions.antt =====
-- An instance with two sessions, of which one is deleted.
use lotl.Prelude.{number_eq, ℕ, ◌≡◌, refl, ap, true, false, none, some, List, [], ◌∷◌}
use lotl.Errors.{serialization}
use lotl.Exec.{ok, err}
use lotl.Sql.{quiet}
use lotl.Types.{default_config}
use lotl.Database.{empty_database}
use lotl.Sqlite.Storage.{with_stores, new_storage}
use lotl.Api.State.{Lotl}
use lotl.Api.Calls.{Cipher, delete_session, has_session}
use lotl.Api.Sessions.{has_session-open, has_session-delete_session}
use lotl.Api.Closed.{ShutDown, close_storage, close_storage-ShutDown}
use lotl.Tests.Codec.{bundle_format}
use lotl.Tests.Device.{no_tables, signal}

-- A cipher that sends the text as it is.
abbrev cipher : Cipher (List ℕ)
cipher = record {
  device_id = λ n. ok n;
  serialize = λ text. text;
  pre_key_message = λ text. err serialization;
  signal_message = λ text. ok text;
}

abbrev pub two_sessions : Lotl
two_sessions = record {
  db_connection = quiet (record {
    signal = record no_tables {
      sessions =
          (("alice", 1), record { session_data = 5 ∷ []; created_at = 10; updated_at = 10 })
          ∷ (("bob", 1), record { session_data = 6 ∷ []; created_at = 20; updated_at = 20 })
          ∷ [];
    };
    app = empty_database false;
    schema_info = none;
  });
  config = default_config;
  storage = some (with_stores true new_storage);
}

bob_reported : (has_session "bob" two_sessions).0 ≡ ok true
bob_reported =
    ap (λ o. o.0) (has_session-open "bob" two_sessions (with_stores true new_storage) refl refl)

has_session-delete_session_example :
    ((delete_session cipher 30 "alice" two_sessions).0 ≡ ok tt)
    × ((has_session "bob" (delete_session cipher 30 "alice" two_sessions).1).0
        ≡ (has_session "bob" two_sessions).0)
has_session-delete_session_example =
    has_session-delete_session cipher refl 30 "alice" "bob" two_sessions
      (with_stores true new_storage) refl
      (record {
        sessions = refl;
        identities = refl;
        pre_keys = refl;
        signed_pre_keys = refl;
        kyber_pre_keys = refl;
      })
      refl

-- The storage of the same instance is closed.
close_storage-ShutDown_example :
    ((close_storage (with_stores true new_storage) two_sessions).0 ≡ ok tt)
    × ShutDown signal cipher bundle_format two_sessions
        (close_storage (with_stores true new_storage) two_sessions).1
close_storage-ShutDown_example =
    close_storage-ShutDown signal cipher bundle_format two_sessions.db_connection.tables
      default_config (with_stores true new_storage) refl
