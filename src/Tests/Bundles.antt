-- ===== src/Tests/Bundles.antt =====
-- The bundle of a peer's second device.
use lotl.Prelude.{
  address_eq, string_eq, number_eq, ℕ, true, ◌≡◌, refl, String, List, [], ◌∷◌, ◌||◌, ltb,
  if◌then◌else◌,
}
use lotl.Errors.{invalid_config, text}
use lotl.Exec.{Result, ok, err}
use lotl.Sql.{Connection}
use lotl.HashMap.{insert}
use lotl.Sqlite.Tables.{SignalTables, SessionRow}
use lotl.Sqlite.Storage.{with_stores, new_storage}
use lotl.Libsignal.{Messages}
use lotl.Api.State.{signal_connection}
use lotl.Api.Bundles.{SerializableBundle, BundleReader, process_prekey_bundle}
use lotl.Api.Bundles.Session.{IsReadable, IsEstablished, has_session-process_prekey_bundle}
use lotl.Api.Calls.{has_session}
use lotl.Tests.Codec.{bundle_format, bundle_laws}
use lotl.Tests.Device.{signal}
use lotl.Tests.Sessions.{two_sessions}
use lotl.Tests.Sqlite.{key_of}

abbrev session : SessionRow
session = record { session_data = 1 ∷ []; created_at = 30; updated_at = 30 }

abbrev establish :
    String × ℕ → ℕ → Connection SignalTables → Result (Unit {0}) × Connection SignalTables
establish address key c = (
  ok tt,
  record c { tables = record c.tables { sessions = insert address session c.tables.sessions } },
)

abbrev valid_device : ℕ → Result ℕ
valid_device n =
    if ltb n 1 || ltb 127 n then err (invalid_config (text "invalid device id")) else ok n

-- A bundle is its identity key.
abbrev reader : BundleReader ℕ ℕ ℕ ℕ
reader = record {
  public_key = key_of;
  kem_public_key = key_of;
  device_id = valid_device;
  new_bundle = λ r d p s k sig y z ysig i. ok i;
}

abbrev messages : Messages (Connection SignalTables) ℕ (List ℕ)
messages = record {
  process_prekey_bundle = λ timestamp. establish;
  message_encrypt = λ time text address c. (ok text, c);
  message_decrypt = λ text address c. (ok text, c);
}

abbrev laptop_bundle : SerializableBundle
laptop_bundle = record {
  version = "0.1.0";
  registration_id = 5;
  device_id = 2;
  pre_key_id = 3;
  pre_key_public = 10 ∷ [];
  signed_pre_key_id = 4;
  signed_pre_key_public = 11 ∷ [];
  signed_pre_key_signature = 12 ∷ [];
  identity_key = 13 ∷ [];
  kyber_pre_key_id = 6;
  kyber_pre_key_public = 14 ∷ [];
  kyber_pre_key_signature = 15 ∷ [];
}

abbrev laptop_bytes : List ℕ
laptop_bytes = bundle_laws.bytes laptop_bundle

abbrev laptop-IsReadable : IsReadable signal bundle_format reader messages laptop_bytes
laptop-IsReadable = record {
  serialized = laptop_bundle;
  reads = bundle_laws.from_bytes_lem laptop_bundle refl;
  identity_key = 13;
  identity = refl;
  pre_key = 10;
  pre = refl;
  signed_key = 11;
  signed = refl;
  kyber_key = 14;
  kyber = refl;
  device = refl;
  bundle = 13;
  made = refl;
}

abbrev laptop-IsEstablished :
    IsEstablished signal bundle_format reader messages 31
      ("carol", 2)
      13
      (signal_connection two_sessions)
laptop-IsEstablished = record {
  left = (establish ("carol", 2) 13 (signal_connection two_sessions)).1;
  succeeds = refl;
  row = session;
  stored = refl;
  quiet_engine = refl;
}

has_session-process_prekey_bundle_example :
    ((process_prekey_bundle signal bundle_format reader messages 30 31 "carol" laptop_bytes
        two_sessions).0
      ≡ ok tt)
    × ((has_session "carol"
          (process_prekey_bundle signal bundle_format reader messages 30 31 "carol" laptop_bytes
            two_sessions).1).0
        ≡ (has_session "carol" two_sessions).0)
has_session-process_prekey_bundle_example =
    has_session-process_prekey_bundle signal bundle_format reader messages 30 31 "carol"
      laptop_bytes two_sessions (with_stores true new_storage) refl refl refl refl laptop-IsReadable
      laptop-IsEstablished "carol"
