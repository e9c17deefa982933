-- ===== src/Tests/Keys.antt =====
-- Rotation, replenishment and cleanup of the keys of a memory storage. A record of a test is its id
-- and its time, a key pair a number.
use lotl.Prelude.{
  number_eq, ℕ, ◌+◌, ◌≤◌, ◌≡◌, ◌↔◌, refl, true, false, some, List, [], ◌∷◌, length, arith,
}
use lotl.Prelude.Rows.{Distinct}
use lotl.Errors.{signal_protocol, invalid_signed_pre_key_id, invalid_kyber_pre_key_id}
use lotl.Exec.{Result, ok}
use lotl.HashMap.Values.{map_values}
use lotl.HashMap.{lookup, contains, max_key, remove}
use lotl.Libsignal.{SignedRecordApi, SignedRecordLaws}
use lotl.StorageTrait.{SignalStorageContainer}
use lotl.StorageTrait.Laws.{RotatingLaws, PreKeyLaws}
use lotl.Memory.{MemoryStorage, Field, signed_field, kyber_field, is_older, memory_storage}
use lotl.Memory.Laws.{IsUp, pre_key_entries, other_maps, memory-RotatingLaws, memory-PreKeyLaws}
use lotl.Rotation.Stores.{
  cleanup_expired, needs_rotation, rotate_signed_pre_key, rotate_kyber_pre_key, replenish_pre_keys,
  consume_pre_key, min_pre_key_count,
}
use lotl.Maintenance.Grace.{superseded_key_deleted}
use lotl.Rotation.Stores.{cleanup_expired_signed_pre_keys}
use lotl.Rotation.Cleanup.{cleanup_keeps_one, cleanup_keeps_fresh, cleanup_deletes_expired}
use lotl.Rotation.Rotate.{
  Rotated, needs_rotation_iff, needs_rotation_future, rotate_signed_pre_key_adds,
  rotate_kyber_pre_key_adds,
}
use lotl.Rotation.Replenish.{Replenished, replenish_pre_keys_adds, consume_pre_key_leaves_enough}

abbrev pub Key : Type 0
Key = ℕ × ℕ

abbrev Storage : Type 0
Storage = MemoryStorage Key Key ℕ

abbrev pub time_of : Key → Result ℕ
time_of r = ok r.1

abbrev pub api : SignedRecordApi ℕ ℕ ℕ Key
api = record {
  sign = λ i k. ok (i + k);
  new = λ i t k s. (i, t);
  id = λ r. ok r.0;
  timestamp = time_of;
}

abbrev pub api_laws : SignedRecordLaws api
api_laws = record { id-new = λ i t k s. refl; timestamp-new = λ i t k s. refl }

abbrev pub pre_key : ℕ → ℕ → ℕ
pre_key id k = k

abbrev pair_of : ℕ → Result ℕ
pair_of k = ok k

abbrev container : SignalStorageContainer Storage Key Key ℕ
container = memory_storage pre_key pair_of time_of time_of

abbrev beside_signed : Storage → List (ℕ × ℕ) × List (ℕ × Key)
beside_signed s = (s.pre_keys, s.kyber_pre_keys)

abbrev beside_kyber : Storage → List (ℕ × ℕ) × List (ℕ × Key)
beside_kyber s = (s.pre_keys, s.signed_pre_keys)

abbrev signed_map : Field Storage Key
signed_map = signed_field

abbrev kyber_map : Field Storage Key
kyber_map = kyber_field

abbrev signed_laws :
    RotatingLaws IsUp signed_map.read beside_signed container.signed_pre_key_store
      (signal_protocol invalid_signed_pre_key_id)
      (is_older signed_map time_of)
signed_laws =
    memory-RotatingLaws signed_map beside_signed (λ m s. refl) (λ m s. refl) time_of
      (signal_protocol invalid_signed_pre_key_id)

-- A key of 1970 and one of eleven and a half days later.
abbrev two_keys : Storage
two_keys = record {
  pre_keys = (1, 7) ∷ (4, 9) ∷ [];
  signed_pre_keys = (1, (1, 0)) ∷ (2, (2, 1_000_000_000)) ∷ [];
  kyber_pre_keys = (1, (1, 0)) ∷ [];
}

abbrev entries_of : Storage → List (ℕ × ℕ)
entries_of = pre_key_entries pre_key pair_of (λ id k. refl)

abbrev beside_pre_keys : Storage → List (ℕ × Key) × List (ℕ × Key)
beside_pre_keys = other_maps pre_key pair_of (λ id k. refl)

abbrev pre_key_laws : PreKeyLaws IsUp entries_of beside_pre_keys container.pre_key_store pre_key
pre_key_laws = memory-PreKeyLaws pre_key pair_of (λ id k. refl)

abbrev pre_key_ids : Distinct (λ (j : ℕ). j) (1 ∷ 4 ∷ [])
pre_key_ids = ((omega arith, tt), (tt, tt))

abbrev two_ids : Distinct (λ (j : ℕ). j) (1 ∷ 2 ∷ [])
two_ids = ((omega arith, tt), (tt, tt))

cleanup_keeps_one_example :
    1
    ≤ length
        (cleanup_expired container.signed_pre_key_store 1_000_000_500 two_keys).1.signed_pre_keys
cleanup_keeps_one_example =
    cleanup_keeps_one signed_laws 1_000_000_500 two_keys tt two_ids (omega arith)

cleanup_keeps_fresh_example :
    lookup 2
      (cleanup_expired container.signed_pre_key_store 1_000_000_500 two_keys).1.signed_pre_keys
    ≡ some (2, 1_000_000_000)
unfolding lookup
cleanup_keeps_fresh_example =
    cleanup_keeps_fresh signed_laws 1_000_000_500 two_keys tt two_ids 2 (2, 1_000_000_000) refl refl

cleanup_deletes_expired_example :
    contains 1
      (cleanup_expired container.signed_pre_key_store 1_000_000_500 two_keys).1.signed_pre_keys
    ≡ false
unfolding lookup
cleanup_deletes_expired_example =
    cleanup_deletes_expired signed_laws 1_000_000_500 two_keys tt two_ids 2 1 (2, 1_000_000_000)
      (1, 0) refl refl refl refl

needs_rotation_iff_example :
    (needs_rotation container.signed_pre_key_store time_of (ok 1_604_801_000) two_keys
      ≡ (ok true, two_keys))
    ↔ (1_000_000_000 + 604_801_000 ≤ 1_604_801_000)
unfolding max_key lookup
needs_rotation_iff_example =
    needs_rotation_iff signed_laws time_of 1_604_801_000 two_keys tt 2 1_000_000_000
      (2, 1_000_000_000) refl refl refl (omega arith) (omega arith)

needs_rotation_future_example :
    needs_rotation container.signed_pre_key_store time_of (ok 999_999_999) two_keys
    ≡ (ok true, two_keys)
unfolding max_key lookup
needs_rotation_future_example =
    needs_rotation_future signed_laws time_of 999_999_999 two_keys tt 2 1_000_000_000
      (2, 1_000_000_000) refl refl refl (omega arith) (omega arith)

rotate_signed_pre_key_adds_example :
    Rotated IsUp signed_map.read beside_signed two_keys
      (3, 2_000_000_000)
      (rotate_signed_pre_key container api api pre_key 5 (ok 2_000_000_000) 6 two_keys)
unfolding max_key
rotate_signed_pre_key_adds_example =
    rotate_signed_pre_key_adds container api api pre_key signed_laws api_laws 5 2_000_000_000 6 11
      two_keys tt two_ids (omega arith) refl

rotate_kyber_pre_key_adds_example :
    Rotated IsUp kyber_map.read beside_kyber two_keys
      (2, 2_000_000_000)
      (rotate_kyber_pre_key container api api pre_key 5 (ok 2_000_000_000) 6 two_keys)
unfolding max_key
rotate_kyber_pre_key_adds_example =
    rotate_kyber_pre_key_adds container api api pre_key
      (memory-RotatingLaws kyber_map beside_kyber (λ m s. refl) (λ m s. refl) time_of
        (signal_protocol invalid_kyber_pre_key_id))
      5 2_000_000_000 6 11 two_keys tt (tt, tt) (omega arith) refl

replenish_pre_keys_adds_example :
    Replenished IsUp entries_of beside_pre_keys pre_key
      (λ i. i + 7)
      two_keys
      (replenish_pre_keys container api api pre_key (λ i. i + 7) two_keys)
unfolding map_values max_key
replenish_pre_keys_adds_example =
    replenish_pre_keys_adds container api api pre_key pre_key_laws (λ i. i + 7) two_keys tt
      pre_key_ids (omega arith)

consume_pre_key_leaves_enough_example :
    min_pre_key_count
    ≤ length (entries_of (consume_pre_key container api api pre_key (λ i. i + 7) 1 two_keys).1)
unfolding map_values max_key remove
consume_pre_key_leaves_enough_example =
    consume_pre_key_leaves_enough container api api pre_key pre_key_laws (λ i. i + 7) two_keys 1 tt
      pre_key_ids (omega arith)

superseded_key_deleted_example :
    contains 2
      (cleanup_expired_signed_pre_keys container api api pre_key
        (ok 1_700_000_005)
        (rotate_signed_pre_key container api api pre_key 5
          (ok 1_700_000_000)
          6
          two_keys).1).1.signed_pre_keys
    ≡ false
unfolding max_key lookup
superseded_key_deleted_example =
    superseded_key_deleted api api pre_key pair_of api_laws 5 1_700_000_000 1_700_000_005 6 11
      two_keys 2 1_000_000_000 (2, 1_000_000_000) two_ids refl (omega arith) refl refl refl
      (omega arith) (omega arith) (omega arith) (omega arith)
