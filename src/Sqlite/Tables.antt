-- ===== src/Sqlite/Tables.antt =====
-- The tables of src/signal_storage.rs, as its CREATE TABLE statements lay them out. A table with a
-- primary key is a map from the key to the other columns; times are in seconds.
use lotl.Prelude.{ℕ, String, Bool, Option, List}

pub record SessionRow : Type 0 where
  pub session_data : List ℕ
  pub created_at : ℕ
  pub updated_at : ℕ

pub record LocalIdentityRow : Type 0 where
  pub registration_id : ℕ
  pub private_key : List ℕ
  pub public_key : List ℕ
  pub created_at : ℕ
  pub updated_at : ℕ

pub record IdentityRow : Type 0 where
  pub public_key : List ℕ
  pub trust_level : ℕ
  pub first_seen : ℕ
  pub last_seen : ℕ
  pub verified_at : Option ℕ

pub record PreKeyRow : Type 0 where
  pub key_data : List ℕ
  pub created_at : ℕ
  pub used_at : Option ℕ

-- a row of `signed_pre_keys` and of `kyber_pre_keys`
pub record KeyRow : Type 0 where
  pub key_data : List ℕ
  pub signature : List ℕ
  pub created_at : ℕ
  pub expires_at : ℕ
  pub is_current : Bool

-- `local_identity` has one row at most, by its CHECK (id = 1).
pub record SignalTables : Type 0 where
  pub sessions : List ((String × ℕ) × SessionRow)
  pub local_identity : Option LocalIdentityRow
  pub identity_keys : List ((String × ℕ) × IdentityRow)
  pub pre_keys : List (ℕ × PreKeyRow)
  pub signed_pre_keys : List (ℕ × KeyRow)
  pub kyber_pre_keys : List (ℕ × KeyRow)
