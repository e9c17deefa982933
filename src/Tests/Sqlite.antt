-- ===== src/Tests/Sqlite.antt =====
-- Runs of the SQLite stores, with keys and records of numbers.
use lotl.Prelude.{
  number_eq, address_eq, ℕ, ◌≡◌, ◌≢◌, refl, ap, String, false, none, some, List, [], ◌∷◌, arith,
}
use lotl.Errors.{serialization}
use lotl.Exec.{Result, ok, err}
use lotl.Sql.{quiet}
use lotl.HashMap.{lookup, insert}
use lotl.Sqlite.Tables.{SignalTables, IdentityRow}
use lotl.Sqlite.KeyTable.{RecordFormat}
use lotl.Sqlite.KeyTable.Laws.{FormatLaws}
use lotl.Libsignal.{new_or_unchanged}
use lotl.Sqlite.Identities.{IdentityFormat, save_identity, is_trusted_identity}
use lotl.Sqlite.Identities.Trust.{save_identity_writes, is_trusted-save_identity_any}

abbrev pub from_bytes : List ℕ → Result (ℕ × ℕ)
from_bytes (i ∷ t ∷ []) = ok (i, t)
from_bytes _ = err serialization

abbrev pub format : RecordFormat (ℕ × ℕ)
format = record {
  serialize = λ r. ok (r.0 ∷ r.1 ∷ []);
  deserialize = from_bytes;
  timestamp = λ r. ok r.1;
  signature = λ r. ok [];
}

abbrev pub format_laws : FormatLaws format
format_laws = record {
  bytes = λ r. r.0 ∷ r.1 ∷ [];
  millis = λ r. r.1;
  signed = λ r. [];
  serialize_lem = λ r. refl;
  deserialize_lem = λ r. refl;
  timestamp_lem = λ r. refl;
  signature_lem = λ r. refl;
}

abbrev pub key_of : List ℕ → Result ℕ
key_of (k ∷ []) = ok k
key_of _ = err serialization

abbrev pub identities : IdentityFormat ℕ ℕ
identities = record {
  key_bytes = λ k. k ∷ [];
  key_from = key_of;
  pair_bytes = λ k. k ∷ [];
  pair_from = key_of;
  identity_key = λ k. k;
}

abbrev pub phone : String × ℕ
phone = ("bob", 1)

abbrev pub laptop : String × ℕ
laptop = ("bob", 2)

two_devices : phone ≢ laptop
two_devices e = omega (arith, ap (λ (a : String × ℕ). a.1) e)

-- Bob's phone was verified with the key 3.
abbrev verified : IdentityRow
verified = record {
  public_key = 3 ∷ [];
  trust_level = 1;
  first_seen = 10;
  last_seen = 20;
  verified_at = some 20;
}

abbrev with_phone : SignalTables
with_phone = record {
  sessions = [];
  local_identity = none;
  identity_keys = (phone, verified) ∷ [];
  pre_keys = [];
  signed_pre_keys = [];
  kyber_pre_keys = [];
}

save_identity_writes_example : save_identity identities 30 phone 3 (quiet with_phone) ≡ (
  ok new_or_unchanged,
  quiet (record with_phone {
    identity_keys =
        (
          phone,
          record {
            public_key = 3 ∷ [];
            trust_level = 0;
            first_seen = 30;
            last_seen = 30;
            verified_at = none;
          },
        )
        ∷ [];
  }),
)
unfolding lookup insert
save_identity_writes_example = save_identity_writes identities 30 phone 3 with_phone

is_trusted-save_identity_any_example :
    (is_trusted_identity identities phone 3
      (save_identity identities 30 phone 4 (quiet with_phone)).1).0
    ≡ ok false
is_trusted-save_identity_any_example =
    is_trusted-save_identity_any identities (λ k. refl) 30 phone phone 4 3 with_phone
