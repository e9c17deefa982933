-- ===== src/Maintenance/Unread.antt =====
-- `perform_key_maintenance` of src/lib.rs under a clock that stands before 1970.
use lotl.Prelude.{number_eq, ◌≡◌, refl, ℕ, Bool, some, List, Option-cases, inl, inr}
use lotl.Errors.{LotlError}
use lotl.Exec.{ok, err, Exec, ◌>>=◌}
use lotl.HashMap.{lookup, max_key}
use lotl.HashMap.Laws.{lookup_of_contains, contains-max}
use lotl.Libsignal.{SignedRecordApi, SignedRecordTotal}
use lotl.StorageTrait.{SignalStorageContainer}
use lotl.StorageTrait.Container.{ContainerLaws}
use lotl.Rotation.Stores.{
  needs_rotation, age_check, rotate_signed_pre_key, generate_signed_pre_key,
  signed_pre_key_needs_rotation,
}
use lotl.Maintenance.{Readings, as_storage_error, rotated_if, perform_key_maintenance}

module _ {S Signed Kyber PreKey Identity KeyPair KemKeyPair Signature O : Type 0}
    (storage : SignalStorageContainer S Signed Kyber PreKey)
    (signed : SignedRecordApi Identity KeyPair Signature Signed)
    (kyber : SignedRecordApi Identity KemKeyPair Signature Kyber)
    (new_pre_key : ℕ → KeyPair → PreKey) {IsReady : S → Type 0}
    {signed_keys : S → List (ℕ × Signed)} {kyber_keys : S → List (ℕ × Kyber)}
    {pre_keys : S → List (ℕ × PreKey)} {others : S → O} {signed_expired : ℕ → Signed → Bool}
    {kyber_expired : ℕ → Kyber → Bool}
    (laws : ContainerLaws IsReady signed_keys kyber_keys pre_keys others storage new_pre_key
      signed_expired kyber_expired) where
  -- Over a ready backend that keeps the laws of a container, where the identity can be read and
  -- libsignal stamps every signed record: while the clock cannot be read, whether the storage holds a
  -- signed pre-key or none, maintenance fails with the clock's error and changes nothing, so that no
  -- key of any kind is rotated, added or deleted.
  pub perform_key_maintenance_unread :
      (get_identity_key_pair : Exec S Identity) (identity : Identity) (readings : Readings)
      (e : LotlError) (key_pair : KeyPair) (kyber_keypair : KemKeyPair) (generate : ℕ → KeyPair)
      (s : S)
      → SignedRecordTotal signed
      → get_identity_key_pair s ≡ (ok identity, s)
      → readings.signed_check ≡ err e
      → readings.signed_rotation ≡ err e
      → IsReady s
      → perform_key_maintenance storage get_identity_key_pair signed kyber new_pre_key readings
          key_pair kyber_keypair generate s
        ≡ (err (as_storage_error e), s)
  unfolding perform_key_maintenance signed_pre_key_needs_rotation needs_rotation age_check
      rotated_if rotate_signed_pre_key generate_signed_pre_key ◌>>=◌
  perform_key_maintenance_unread get_identity identity readings e key_pair kyber_keypair generate s
        total identified check rotation ready =
      rw (identified, laws.signed_laws.get_max_key_id_lem s ready)
        (elim (Option-cases (max_key (signed_keys s))) [
          | inl none_held ↦
              rw (none_held, laws.signed_laws.get_max_key_id_lem s ready, rotation) refl
          | inr (k, held) ↦
              let found : (v : Signed) × (lookup k (signed_keys s) ≡ some v) =
                lookup_of_contains k (signed_keys s) (contains-max (signed_keys s) k held) in
              rw
                (
                  held,
                  laws.signed_laws.get_key_lem s k ready,
                  found.1,
                  (total.stamped found.0).1,
                  check,
                )
                refl
        ])
