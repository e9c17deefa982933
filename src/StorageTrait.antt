-- ===== src/StorageTrait.antt =====
-- src/storage_trait.rs: what the code asks of a storage backend. A backend is a state and these
-- actions on it; src/key_rotation.rs is generic over them.
pub mod Laws
pub mod Container
use lotl.Prelude.{ℕ, String, Bool, Option, List}
use lotl.Libsignal.{IdentityChange}
use lotl.Exec.{Exec}

-- `SessionStore + ExtendedSessionStore`. The number of a write is the time of the call, which a
-- database records.
pub record SessionStore (S Session : Type 0) : Type 0 where
  pub load_session : String × ℕ → Exec S (Option Session)
  pub store_session : ℕ → String × ℕ → Session → Exec S (Unit {0})
  pub session_count : Exec S ℕ
  pub clear_all_sessions : Exec S (Unit {0})
  pub delete_session : String × ℕ → Exec S (Unit {0})

-- `IdentityKeyStore + ExtendedIdentityStore`
pub record IdentityStore (S IdentityKey IdentityKeyPair : Type 0) : Type 0 where
  pub get_identity_key_pair : Exec S IdentityKeyPair
  pub get_local_registration_id : Exec S ℕ
  pub save_identity : ℕ → String × ℕ → IdentityKey → Exec S IdentityChange
  pub is_trusted_identity : String × ℕ → IdentityKey → Exec S Bool
  pub get_identity : String × ℕ → Exec S (Option IdentityKey)
  pub identity_count : Exec S ℕ
  pub set_local_identity_key_pair : ℕ → IdentityKeyPair → Exec S (Unit {0})
  pub set_local_registration_id : ℕ → ℕ → Exec S (Unit {0})
  pub get_peer_identity : String × ℕ → Exec S (Option IdentityKey)
  pub delete_identity : String × ℕ → Exec S (Unit {0})
  pub clear_all_identities : Exec S (Unit {0})
  pub clear_local_identity : Exec S (Unit {0})

-- `SignedPreKeyStore + ExtendedSignedPreKeyStore`, and the Kyber traits, which have the same shape.
pub record RotatingStore (S R : Type 0) : Type 0 where
  pub get_key : ℕ → Exec S R
  pub save_key : ℕ → R → Exec S (Unit {0})
  pub key_count : Exec S ℕ
  pub get_max_key_id : Exec S (Option ℕ)
  pub delete_key : ℕ → Exec S (Unit {0})
  pub get_keys_older_than : ℕ → Exec S (List ℕ)

-- `PreKeyStore + ExtendedPreKeyStore`
pub record PreKeyStore (S R : Type 0) : Type 0 where
  pub get_pre_key : ℕ → Exec S R
  pub save_pre_key : ℕ → R → Exec S (Unit {0})
  pub pre_key_count : Exec S ℕ
  pub get_max_pre_key_id : Exec S (Option ℕ)
  pub delete_pre_key : ℕ → Exec S (Unit {0})

-- `SignalStorageContainer`: the stores that rotation reaches through it.
pub record SignalStorageContainer (S Signed Kyber PreKey : Type 0) : Type 0 where
  pub signed_pre_key_store : RotatingStore S Signed
  pub kyber_pre_key_store : RotatingStore S Kyber
  pub pre_key_store : PreKeyStore S PreKey
