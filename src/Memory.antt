-- ===== src/Memory.antt =====
-- The in-memory key stores of src/memory_storage.rs. A HashMap is an association list; its iteration
-- order, which the source leaves open, is the list's.
pub mod Laws
pub mod Peers
pub mod Ops
use lotl.Prelude.{number_eq, ℕ, ◌≡◌, refl, Bool, false, Option, none, some, List, [], length, ltb}
use lotl.Errors.{
  SignalProtocolError, invalid_pre_key_id, invalid_signed_pre_key_id, invalid_kyber_pre_key_id,
  LotlError, signal_protocol,
}
use lotl.Exec.{Result, ok, err, Exec, pure, lift, gets, ok_or, ◌>>=◌}
use lotl.HashMap.{lookup, insert, remove, max_key, keys_where}
use lotl.StorageTrait.{RotatingStore, PreKeyStore, SignalStorageContainer}

-- The maps behind the stores of `MemoryStorage` that rotation reaches.
pub record MemoryStorage (Signed Kyber KeyPair : Type 0) : Type 0 where
  pub pre_keys : List (ℕ × KeyPair)
  pub signed_pre_keys : List (ℕ × Signed)
  pub kyber_pre_keys : List (ℕ × Kyber)

-- `MemoryStorage::new()`
abbrev pub new_memory_storage : {Signed Kyber KeyPair : Type 0} → MemoryStorage Signed Kyber KeyPair
new_memory_storage = record { pre_keys = []; signed_pre_keys = []; kyber_pre_keys = [] }

-- One map of the storage.
pub record Field (S R : Type 0) : Type 0 where
  pub read : S → List (ℕ × R)
  pub write : List (ℕ × R) → S → S

module _ {S R : Type 0} (field : Field S R) where
  -- a statement on the locked map
  unfoldable pub modify : (List (ℕ × R) → List (ℕ × R)) → Exec S (Unit {0})
  modify f s = (ok tt, field.write (f (field.read s)) s)

  unfoldable pub get_cloned : LotlError → ℕ → Exec S R
  get_cloned missing id = do found ← gets (λ s. lookup id (field.read s)); ok_or missing found

  unfoldable pub count : Exec S ℕ
  count = gets (λ s. length (field.read s))

  -- `store.keys().max().copied()`
  unfoldable pub max_id : Exec S (Option ℕ)
  max_id = gets (λ s. max_key (field.read s))

  -- `if let Ok(ts) = record.timestamp() { if ts.epoch_millis() < timestamp_millis { push } }`
  abbrev pub is_older : (R → Result ℕ) → ℕ → R → Bool
  is_older timestamp timestamp_millis r = elim (timestamp r) [
    | ok ts ↦ ltb ts timestamp_millis
    | err e ↦ false
  ]

  unfoldable pub older_than : (R → Result ℕ) → ℕ → Exec S (List ℕ)
  older_than timestamp timestamp_millis =
      gets (λ s. keys_where (is_older timestamp timestamp_millis) (field.read s))

  -- The signed and the Kyber store differ in the map and in the error of a missing key.
  abbrev pub rotating_store : (R → Result ℕ) → LotlError → RotatingStore S R
  rotating_store timestamp missing = record {
    get_key = get_cloned missing;
    save_key = λ id r. modify (insert id r);
    key_count = count;
    get_max_key_id = max_id;
    delete_key = λ id. modify (remove id);
    get_keys_older_than = older_than timestamp;
  }

module _ {Signed Kyber KeyPair : Type 0} where
  abbrev pub pre_keys_field : Field (MemoryStorage Signed Kyber KeyPair) KeyPair
  pre_keys_field = record { read = λ s. s.pre_keys; write = λ m s. record s { pre_keys = m } }

  abbrev pub signed_field : Field (MemoryStorage Signed Kyber KeyPair) Signed
  signed_field = record {
    read = λ s. s.signed_pre_keys;
    write = λ m s. record s { signed_pre_keys = m };
  }

  abbrev pub kyber_field : Field (MemoryStorage Signed Kyber KeyPair) Kyber
  kyber_field = record {
    read = λ s. s.kyber_pre_keys;
    write = λ m s. record s { kyber_pre_keys = m };
  }

  abbrev pub memory_signed_pre_key_store :
      (Signed → Result ℕ) → RotatingStore (MemoryStorage Signed Kyber KeyPair) Signed
  memory_signed_pre_key_store timestamp =
      rotating_store signed_field timestamp (signal_protocol invalid_signed_pre_key_id)

  abbrev pub memory_kyber_pre_key_store :
      (Kyber → Result ℕ) → RotatingStore (MemoryStorage Signed Kyber KeyPair) Kyber
  memory_kyber_pre_key_store timestamp =
      rotating_store kyber_field timestamp (signal_protocol invalid_kyber_pre_key_id)

  unfoldable pub clear_all_pre_keys : Exec (MemoryStorage Signed Kyber KeyPair) (Unit {0})
  unfolding modify
  clear_all_pre_keys = modify pre_keys_field (λ m. [])

  unfoldable pub clear_all_signed_pre_keys : Exec (MemoryStorage Signed Kyber KeyPair) (Unit {0})
  unfolding modify
  clear_all_signed_pre_keys = modify signed_field (λ m. [])

  unfoldable pub clear_all_kyber_pre_keys : Exec (MemoryStorage Signed Kyber KeyPair) (Unit {0})
  unfolding modify
  clear_all_kyber_pre_keys = modify kyber_field (λ m. [])

  -- libsignal's own way to take a one-time key away
  unfoldable pub remove_pre_key : ℕ → Exec (MemoryStorage Signed Kyber KeyPair) (Unit {0})
  unfolding modify
  remove_pre_key prekey_id = modify pre_keys_field (remove prekey_id)

  -- The use of a Kyber key is not tracked.
  unfoldable pub mark_kyber_pre_key_used : ℕ → Exec (MemoryStorage Signed Kyber KeyPair) (Unit {0})
  mark_kyber_pre_key_used kyber_prekey_id = pure tt

-- `new_pre_key` is `PreKeyRecord::new`, `key_pair` the accessor of its key pair.
module _ {Signed Kyber KeyPair PreKey : Type 0} (new_pre_key : ℕ → KeyPair → PreKey)
    (key_pair : PreKey → Result KeyPair) where
  unfoldable pub get_pre_key : ℕ → Exec (MemoryStorage Signed Kyber KeyPair) PreKey
  unfolding get_cloned
  get_pre_key prekey_id = do
    found ← get_cloned pre_keys_field (signal_protocol invalid_pre_key_id) prekey_id
    pure (new_pre_key prekey_id found)

  unfoldable pub save_pre_key : ℕ → PreKey → Exec (MemoryStorage Signed Kyber KeyPair) (Unit {0})
  unfolding modify
  save_pre_key prekey_id record' = do
    key_pair' ← lift (key_pair record')
    modify pre_keys_field (insert prekey_id key_pair')

  abbrev pub memory_pre_key_store : PreKeyStore (MemoryStorage Signed Kyber KeyPair) PreKey
  memory_pre_key_store = record {
    get_pre_key = get_pre_key;
    save_pre_key = save_pre_key;
    pre_key_count = count pre_keys_field;
    get_max_pre_key_id = max_id pre_keys_field;
    delete_pre_key = λ id. modify pre_keys_field (remove id);
  }

  -- `impl SignalStorageContainer for MemoryStorage`
  abbrev pub memory_storage :
      (Signed → Result ℕ)
      → (Kyber → Result ℕ)
      → SignalStorageContainer (MemoryStorage Signed Kyber KeyPair) Signed Kyber PreKey
  memory_storage signed_timestamp kyber_timestamp = record {
    signed_pre_key_store = memory_signed_pre_key_store signed_timestamp;
    kyber_pre_key_store = memory_kyber_pre_key_store kyber_timestamp;
    pre_key_store = memory_pre_key_store;
  }
