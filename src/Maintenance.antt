-- ===== src/Maintenance.antt =====
-- `perform_key_maintenance` of src/lib.rs, over any storage container that is open.
pub mod Due
pub mod Completes
pub mod Grace
pub mod Unread
use lotl.Prelude.{ℕ, ◌-◌, ◌%◌, ◌^◌, Bool, true, false, ltb, if◌then◌else◌}
use lotl.Errors.{LotlError, storage, shown}
use lotl.Exec.{Result, Exec, pure, map_err, ◌>>=◌, ◌>>◌}
use lotl.Types.{MaintenanceResult}
use lotl.Libsignal.{SignedRecordApi}
use lotl.StorageTrait.{SignalStorageContainer}
use lotl.Rotation.Stores.{
  min_pre_key_count, rotate_signed_pre_key, signed_pre_key_needs_rotation, rotate_kyber_pre_key,
  kyber_pre_key_needs_rotation, replenish_pre_keys, cleanup_expired_signed_pre_keys,
  cleanup_expired_kyber_pre_keys,
}

-- What the clock gives at each reading, in the order of the readings: the milliseconds, or an error
-- before 1970.
pub record Readings : Type 0 where
  pub signed_check : Result ℕ
  pub signed_rotation : Result ℕ
  pub kyber_check : Result ℕ
  pub kyber_rotation : Result ℕ
  pub signed_cleanup : Result ℕ
  pub kyber_cleanup : Result ℕ

-- `.map_err(|e| LotlError::Storage(e.to_string()))`
abbrev pub as_storage_error : LotlError → LotlError
as_storage_error e = storage (shown e)

-- `after.saturating_sub(before) as u32`
abbrev pub generated : ℕ → ℕ → ℕ
generated after before = (after - before) % 2 ^ 32

-- `if needs? { rotate?; true } else { false }`
unfoldable pub rotated_if : {S : Type 0} → Bool → Exec S (Unit {0}) → Exec S Bool
rotated_if true rotate = map_err as_storage_error rotate >> pure true
rotated_if false rotate = pure false

module _ {S Signed Kyber PreKey Identity KeyPair KemKeyPair Signature : Type 0}
    (storage : SignalStorageContainer S Signed Kyber PreKey)
    (get_identity_key_pair : Exec S Identity)
    (signed : SignedRecordApi Identity KeyPair Signature Signed)
    (kyber : SignedRecordApi Identity KemKeyPair Signature Kyber)
    (new_pre_key : ℕ → KeyPair → PreKey) where
  unfoldable pub perform_key_maintenance :
      Readings → KeyPair → KemKeyPair → (ℕ → KeyPair) → Exec S MaintenanceResult
  unfolding rotated_if
  perform_key_maintenance readings key_pair kyber_keypair generate = do
    identity_key_pair ← get_identity_key_pair
    signed_due ←
        map_err as_storage_error
          (signed_pre_key_needs_rotation storage signed kyber new_pre_key readings.signed_check)
    signed_pre_key_rotated ← rotated_if signed_due (
        rotate_signed_pre_key storage signed kyber new_pre_key identity_key_pair
          readings.signed_rotation key_pair)
    kyber_due ←
        map_err as_storage_error
          (kyber_pre_key_needs_rotation storage signed kyber new_pre_key readings.kyber_check)
    kyber_pre_key_rotated ← rotated_if kyber_due (
        rotate_kyber_pre_key storage signed kyber new_pre_key identity_key_pair
          readings.kyber_rotation kyber_keypair)
    pre_key_count_before ← storage.pre_key_store.pre_key_count
    (if ltb pre_key_count_before min_pre_key_count
        then map_err as_storage_error (replenish_pre_keys storage signed kyber new_pre_key generate)
        else pure tt)
    pre_key_count_after ← storage.pre_key_store.pre_key_count
    map_err as_storage_error
        (cleanup_expired_signed_pre_keys storage signed kyber new_pre_key readings.signed_cleanup)
    map_err as_storage_error
        (cleanup_expired_kyber_pre_keys storage signed kyber new_pre_key readings.kyber_cleanup)
    pure (record {
      pre_keys_generated = generated pre_key_count_after pre_key_count_before;
      signed_pre_key_rotated = signed_pre_key_rotated;
      kyber_pre_key_rotated = kyber_pre_key_rotated;
    })
