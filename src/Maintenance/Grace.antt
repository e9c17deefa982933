-- ===== src/Maintenance/Grace.antt =====
-- What one maintenance does to the signed pre-key that it replaces.
use lotl.Prelude.{
  number_eq, ℕ, suc, ◌+◌, ◌*◌, ◌-◌, ◌^◌, ◌≤◌, ◌<◌, ◌≡◌, refl, Bool, true, false, some, List, [],
  ◌∷◌, ◌++◌, ◌==◌, ==_iff, arith, Bool-cases, inl, inr,
}
use lotl.Prelude.Rows.{Distinct}
use lotl.Errors.{LotlError, signal_protocol, invalid_signed_pre_key_id}
use lotl.Memory.{MemoryStorage, Field, signed_field, memory_storage, is_older}
use lotl.Memory.Laws.{memory-RotatingLaws}
use lotl.Exec.{Result, ok, ◌>>=◌}
use lotl.HashMap.{lookup, contains, keys, max_key}
use lotl.Libsignal.{SignedRecordApi, SignedRecordLaws}
use lotl.StorageTrait.{SignalStorageContainer}
use lotl.StorageTrait.Laws.{RotatingLaws}
use lotl.Rotation.Stores.{
  unwrap_or, grace_period_secs, rotate_signed_pre_key, cleanup_expired_signed_pre_keys,
}
use lotl.Rotation.Words.{sub_u64}
use lotl.Rotation.Cleanup.{cleanup_deletes_expired}
use lotl.Rotation.Rotate.{Rotated, next_id_free, rotate_signed_pre_key_adds}

lookup-append :
    {V : Type 0} (k : ℕ) (m l : List (ℕ × V)) (v : V)
    → lookup k m ≡ some v
    → lookup k (m ++ l) ≡ some v
unfolding lookup
lookup-append k [] l v h = cc
lookup-append k ((j, w) ∷ m) l v h = elim (Bool-cases (j == k)) [
  | inl e ↦ ground arith
  | inr e ↦ ground (arith, lookup-append k m l v)
]

lookup-append_new :
    {V : Type 0} (k : ℕ) (m : List (ℕ × V)) (v : V)
    → contains k m ≡ false
    → lookup k (m ++ (k, v) ∷ []) ≡ some v
unfolding lookup contains
lookup-append_new k [] v h = rw ((==_iff k k).1 refl)
lookup-append_new k ((j, w) ∷ m) v h = elim (Bool-cases (j == k)) [
  | inl e ↦ ground arith
  | inr e ↦ ground (arith, lookup-append_new k m v)
]

next_free :
    {V : Type 0} (l : List (ℕ × V)) (m : ℕ) → max_key l ≡ some m → contains (suc m) l ≡ false
next_free {V} l m e = rw e at (next_id_free {R = V} l)

module _ {S Signed Kyber PreKey Identity KeyPair KemKeyPair Signature O : Type 0}
    (storage : SignalStorageContainer S Signed Kyber PreKey)
    (signed : SignedRecordApi Identity KeyPair Signature Signed)
    (kyber : SignedRecordApi Identity KemKeyPair Signature Kyber)
    (new_pre_key : ℕ → KeyPair → PreKey) {IsReady : S → Type 0} {others : S → O}
    {entries : S → List (ℕ × Signed)} {missing : LotlError} {expired : ℕ → Signed → Bool}
    (laws : RotatingLaws IsReady entries others storage.signed_pre_key_store missing expired)
    (api : SignedRecordLaws signed) where
  -- Over a ready backend that keeps the laws of a rotating store: a signed pre-key that was the
  -- newest and is older than the cutoff of the cleanup that follows its replacement is gone after
  -- it, where the new key is not that old.
  pub cleanup-rotate_signed_pre_key :
      (identity : Identity) (now later : ℕ) (key_pair : KeyPair) (signature : Signature) (s : S)
      (m : ℕ) (v : Signed)
      → IsReady s
      → Distinct (λ (j : ℕ). j) (keys (entries s))
      → max_key (entries s) ≡ some m
      → m < 2 ^ 32 - 1
      → lookup m (entries s) ≡ some v
      → signed.sign identity key_pair ≡ ok signature
      → expired (sub_u64 later (grace_period_secs * 1000)) v ≡ true
      → expired
          (sub_u64 later (grace_period_secs * 1000))
          (signed.new (suc m) now key_pair signature)
        ≡ false
      → contains m (
          entries
            (cleanup_expired_signed_pre_keys storage signed kyber new_pre_key
              (ok later)
              (rotate_signed_pre_key storage signed kyber new_pre_key identity
                (ok now)
                key_pair
                s).1).1)
        ≡ false
  unfolding cleanup_expired_signed_pre_keys ◌>>=◌
  cleanup-rotate_signed_pre_key identity now later key_pair signature s m v ready d top room found
        signs old fresh =
      let t : S =
        (rotate_signed_pre_key storage signed kyber new_pre_key identity (ok now) key_pair s).1 in
      let r : Rotated IsReady entries others s
          (signed.new (suc (unwrap_or 0 (max_key (entries s)))) now key_pair signature)
          (rotate_signed_pre_key storage signed kyber new_pre_key identity (ok now) key_pair s) =
        rotate_signed_pre_key_adds storage signed kyber new_pre_key laws api identity now key_pair
          signature s ready d (rw top room) signs in
      cleanup_deletes_expired laws later t r.ready r.distinct (suc m) m
        (signed.new (suc m) now key_pair signature) v
        (rw (r.content, top)
          (lookup-append_new (suc m) (entries s) _ (next_free (entries s) m top)))
        fresh (rw r.content (lookup-append m (entries s) _ v found)) old

-- The memory storage, whose records give the time that they were made with.
module _ {Kyber PreKey Identity KeyPair KemKeyPair Signature Signed : Type 0}
    (signed : SignedRecordApi Identity KeyPair Signature Signed)
    (kyber : SignedRecordApi Identity KemKeyPair Signature Kyber)
    (new_pre_key : ℕ → KeyPair → PreKey) (key_pair_of : PreKey → Result KeyPair)
    (api : SignedRecordLaws signed) where
  abbrev container : SignalStorageContainer (MemoryStorage Signed Kyber KeyPair) Signed Kyber PreKey
  container = memory_storage new_pre_key key_pair_of signed.timestamp kyber.timestamp

  abbrev signed_keys : Field (MemoryStorage Signed Kyber KeyPair) Signed
  signed_keys = signed_field

  abbrev beside : MemoryStorage Signed Kyber KeyPair → List (ℕ × KeyPair) × List (ℕ × Kyber)
  beside s = (s.pre_keys, s.kyber_pre_keys)

  -- In the memory storage, with distinct ids of which the greatest is below 2^32 - 1, and where
  -- libsignal signs: when the newest signed pre-key is so old that the rotation test asks for its
  -- replacement, and the cleanup runs within the grace period after the rotation, at a 64-bit
  -- time, the replaced key is gone after it: no grace period is left to it.
  pub superseded_key_deleted :
      (identity : Identity) (now later : ℕ) (key_pair : KeyPair) (signature : Signature)
      (s : MemoryStorage Signed Kyber KeyPair) (m ts : ℕ) (v : Signed)
      → Distinct (λ (j : ℕ). j) (keys s.signed_pre_keys)
      → max_key s.signed_pre_keys ≡ some m
      → m < 2 ^ 32 - 1
      → lookup m s.signed_pre_keys ≡ some v
      → signed.timestamp v ≡ ok ts
      → signed.sign identity key_pair ≡ ok signature
      → ts + 604_801_000 ≤ now
      → now ≤ later
      → later ≤ now + grace_period_secs * 1000
      → later < 2 ^ 64
      → contains m
          (cleanup_expired_signed_pre_keys container signed kyber new_pre_key
            (ok later)
            (rotate_signed_pre_key container signed kyber new_pre_key identity
              (ok now)
              key_pair
              s).1).1.signed_pre_keys
        ≡ false
  superseded_key_deleted identity now later key_pair signature s m ts v d top room found stamped
        signs age after soon fits =
      cleanup-rotate_signed_pre_key container signed kyber new_pre_key
        (memory-RotatingLaws signed_keys beside (λ l u. refl) (λ l u. refl) signed.timestamp
          (signal_protocol invalid_signed_pre_key_id))
        api identity now later key_pair signature s m v tt d top room found signs
        (rw (is_older, stamped) (ground arith))
        (rw (is_older, api.timestamp-new (suc m) now key_pair signature) (ground arith))
