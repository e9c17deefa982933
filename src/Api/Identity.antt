-- ===== src/Api/Identity.antt =====
-- The first start of an instance: `ensure_identity_initialized` of src/lib.rs.
pub mod Stored
pub mod FirstStart
pub mod Interrupted
use lotl.Prelude.{ℕ, ◌%◌, ◌^◌, Bool, true, false, if◌then◌else◌, List}
use lotl.Prelude.{Eq}
use lotl.Exec.{Result, ok, err, Exec, pure, lift, caught, map_err, ◌>>=◌, ◌>>◌}
use lotl.Sql.{Connection}
use lotl.Maintenance.{as_storage_error}
use lotl.Rotation.Stores.{generate_signed_pre_key, replenish_pre_keys}
use lotl.StorageTrait.{SignalStorageContainer}
use lotl.Sqlite.Tables.{SignalTables}
use lotl.Sqlite.Identities.{
  get_identity_key_pair, set_local_identity_key_pair, set_local_registration_id,
}
use lotl.Sqlite.SignedPreKeys.{save_signed_pre_key}
use lotl.Sqlite.KyberPreKeys.{save_kyber_pre_key}
use lotl.Sqlite.Container.{sqlite_storage}
use lotl.Api.State.{Lotl, on_signal, opened_storage, access_stores, Signal, Draws}

abbrev pub is_ok {ℓ} : {A : Type ℓ} → Result A → Bool
is_ok (ok a) = true
is_ok (err e) = false

-- `random::<u32>() & 0x3FFF`
abbrev pub registration_id_of : ℕ → ℕ
registration_id_of random = random % 2 ^ 14

module _ {IdentityKey IdentityKeyPair Signed Kyber PreKey KeyPair KemKeyPair Signature : Type 0}
    ⦃key_eq : Eq IdentityKey⦄
    (signal : Signal IdentityKey IdentityKeyPair Signed Kyber PreKey KeyPair KemKeyPair
      Signature) where
  -- The stores of the connection.
  abbrev pub storage_at : ℕ → SignalStorageContainer (Connection SignalTables) Signed Kyber PreKey
  storage_at =
      sqlite_storage signal.signed_format signal.kyber_format signal.pre_key_from
        signal.pre_key_bytes

  -- The block under `if !has_identity`.
  unfoldable pub create_identity :
      Draws IdentityKeyPair KeyPair Kyber → Exec (Connection SignalTables) (Unit {0})
  unfolding generate_signed_pre_key
  create_identity draws = do
    map_err as_storage_error
        (set_local_identity_key_pair signal.identities draws.now draws.identity_key_pair)
    map_err as_storage_error
        (set_local_registration_id draws.now (registration_id_of draws.registration))
    signed_pre_key ← map_err as_storage_error (
        generate_signed_pre_key (storage_at draws.now) signal.signed signal.kyber signal.new_pre_key
          draws.identity_key_pair 1 draws.clock draws.key_pair)
    id ← lift (signal.signed.id signed_pre_key)
    save_signed_pre_key signal.signed_format id signed_pre_key
    kyber_record ← lift draws.kyber_record
    save_kyber_pre_key signal.kyber_format 1 kyber_record
    map_err as_storage_error (
        replenish_pre_keys (storage_at draws.now) signal.signed signal.kyber signal.new_pre_key
          draws.pre_key_pair)

  unfoldable pub initialize_identity :
      Draws IdentityKeyPair KeyPair Kyber → Exec (Connection SignalTables) (Unit {0})
  unfolding create_identity
  initialize_identity draws = do
    identity ← caught (get_identity_key_pair signal.identities)
    if is_ok identity then pure tt else create_identity draws

  unfoldable pub ensure_identity_initialized :
      Draws IdentityKeyPair KeyPair Kyber → Exec Lotl (Unit {0})
  unfolding initialize_identity
  ensure_identity_initialized draws = do
    opened ← opened_storage
    access_stores opened
    on_signal (initialize_identity draws)
