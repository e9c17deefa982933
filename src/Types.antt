-- ===== src/Types.antt =====
-- The public data types: src/types.rs.
use lotl.Prelude.{ℕ, String, Bool, Option, List}
use lotl.Prelude.Int.{ℤ}

pub record LotlConfig : Type 0 where
  pub db_path : String
  pub fingerprint_salt : String
  pub fingerprint_prefix : String

-- `LotlConfig::default()`
abbrev pub default_config : LotlConfig
default_config = record {
  db_path = "";
  fingerprint_salt = "signal-identity-fingerprint";
  fingerprint_prefix = "";
}

-- also a row of the table `contacts`, whose columns these are
pub record ContactInfo : Type 0 where
  pub fingerprint : String
  pub signal_identity_key : List ℕ
  pub user_alias : Option String
  pub first_seen : ℤ
  pub last_updated : ℤ

pub data MessageDirection : Type 0 where
  sent received : MessageDirection

pub record MessageRecord : Type 0 where
  pub id : ℕ
  pub fingerprint : String
  pub direction : MessageDirection
  pub plaintext : List ℕ
  pub timestamp : ℤ

pub record ConversationRecord : Type 0 where
  pub id : ℕ
  pub fingerprint : String
  pub last_message_timestamp : ℤ

pub record MaintenanceResult : Type 0 where
  pub pre_keys_generated : ℕ
  pub signed_pre_key_rotated : Bool
  pub kyber_pre_key_rotated : Bool
