-- ===== src/Rotation/Stores.antt =====
-- The functions of src/key_rotation.rs and src/keys.rs, over any storage container. A `clock` is what
-- `SystemTime::now().duration_since(UNIX_EPOCH)` gives: the milliseconds, or an error before 1970.
use lotl.Prelude.{
  ℕ, zero, suc, ◌*◌, ◌/◌, Bool, true, Option, none, some, List, [], ◌∷◌, ltb, leb, if◌then◌else◌,
}
use lotl.Exec.{Result, Exec, pure, lift, ◌>>=◌, ◌>>◌}
use lotl.StorageTrait.{RotatingStore, SignalStorageContainer}
use lotl.Libsignal.{SignedRecordApi}
use lotl.Rotation.Words.{add_u32, sub_u64}

abbrev pub min_pre_key_count : ℕ
min_pre_key_count = 50

abbrev pub replenish_count : ℕ
replenish_count = 100

abbrev pub rotation_interval_secs : ℕ
rotation_interval_secs = 7 * 24 * 60 * 60

abbrev pub grace_period_secs : ℕ
grace_period_secs = 7 * 24 * 60 * 60

abbrev pub unwrap_or {ℓ} : {A : Type ℓ} → A → Option A → A
unwrap_or d none = d
unwrap_or d (some a) = a

-- `.map(|id| id + 1).unwrap_or(1)`
abbrev pub next_pre_key_id : Option ℕ → ℕ
next_pre_key_id none = 1
next_pre_key_id (some id) = add_u32 id 1

-- `for i in 0..count`, from round `i` on
unfoldable pub pre_keys_from : {KeyPair : Type 0} → (ℕ → KeyPair) → ℕ → ℕ → ℕ → List (ℕ × KeyPair)
pre_keys_from generate start_id i zero = []
pre_keys_from generate start_id i (suc rounds) =
    (add_u32 start_id i, generate i) ∷ pre_keys_from generate start_id (suc i) rounds

-- `generate i` is the random key pair of round `i`.
unfoldable pub generate_pre_keys : {KeyPair : Type 0} → (ℕ → KeyPair) → ℕ → ℕ → List (ℕ × KeyPair)
unfolding pre_keys_from
generate_pre_keys generate start_id count = pre_keys_from generate start_id 0 count

module _ {S R : Type 0} (st : RotatingStore S R) where
  -- `for id in expired_ids { if count > 1 { delete } }`
  unfoldable pub delete_expired : List ℕ → Exec S (Unit {0})
  delete_expired [] = pure tt
  delete_expired (id ∷ ids) =
      let rest = delete_expired ids in
      do count ← st.key_count; (if ltb 1 count then st.delete_key id else pure tt); rest

  -- the body that the two cleanups share, after the reading of the clock
  unfoldable pub cleanup_expired : ℕ → Exec S (Unit {0})
  unfolding delete_expired
  cleanup_expired now = do
    expired_ids ← st.get_keys_older_than (sub_u64 now (grace_period_secs * 1000))
    current_count ← st.key_count
    if leb current_count 1 then pure tt else delete_expired expired_ids

  -- the body that the two rotation tests share
  unfoldable pub age_check : (R → Result ℕ) → Result ℕ → Option ℕ → Exec S Bool
  age_check timestamp clock none = pure true
  age_check timestamp clock (some id) = do
    current_key ← st.get_key id
    key_timestamp ← lift (timestamp current_key)
    now ← lift clock
    pure (ltb rotation_interval_secs (sub_u64 now key_timestamp / 1000))

  unfoldable pub needs_rotation : (R → Result ℕ) → Result ℕ → Exec S Bool
  unfolding age_check
  needs_rotation timestamp clock = do max_id ← st.get_max_key_id; age_check timestamp clock max_id

module _ {S Signed Kyber PreKey Identity KeyPair KemKeyPair Signature : Type 0}
    (storage : SignalStorageContainer S Signed Kyber PreKey)
    (signed : SignedRecordApi Identity KeyPair Signature Signed)
    (kyber : SignedRecordApi Identity KemKeyPair Signature Kyber)
    (new_pre_key : ℕ → KeyPair → PreKey) where
  unfoldable pub generate_signed_pre_key : Identity → ℕ → Result ℕ → KeyPair → Exec S Signed
  generate_signed_pre_key identity_key_pair signed_pre_key_id clock key_pair = do
    now ← lift clock
    signature ← lift (signed.sign identity_key_pair key_pair)
    pure (signed.new signed_pre_key_id now key_pair signature)

  unfoldable pub rotate_signed_pre_key : Identity → Result ℕ → KeyPair → Exec S (Unit {0})
  unfolding generate_signed_pre_key
  rotate_signed_pre_key identity_key_pair clock key_pair = do
    max_id ← storage.signed_pre_key_store.get_max_key_id
    new_key ←
        generate_signed_pre_key identity_key_pair (add_u32 (unwrap_or 0 max_id) 1) clock key_pair
    id ← lift (signed.id new_key)
    storage.signed_pre_key_store.save_key id new_key

  unfoldable pub signed_pre_key_needs_rotation : Result ℕ → Exec S Bool
  unfolding needs_rotation
  signed_pre_key_needs_rotation = needs_rotation storage.signed_pre_key_store signed.timestamp

  unfoldable pub cleanup_expired_signed_pre_keys : Result ℕ → Exec S (Unit {0})
  unfolding cleanup_expired
  cleanup_expired_signed_pre_keys clock = do
    now ← lift clock
    cleanup_expired storage.signed_pre_key_store now

  -- `for (key_id, key_pair) in &new_pre_keys { save }`
  unfoldable pub save_pre_keys : List (ℕ × KeyPair) → Exec S (Unit {0})
  save_pre_keys [] = pure tt
  save_pre_keys ((key_id, key_pair) ∷ rest) =
      storage.pre_key_store.save_pre_key key_id (new_pre_key key_id key_pair) >> save_pre_keys rest

  unfoldable pub replenish_pre_keys : (ℕ → KeyPair) → Exec S (Unit {0})
  unfolding save_pre_keys generate_pre_keys
  replenish_pre_keys generate = do
    max_id ← storage.pre_key_store.get_max_pre_key_id
    save_pre_keys (generate_pre_keys generate (next_pre_key_id max_id) replenish_count)

  unfoldable pub consume_pre_key : (ℕ → KeyPair) → ℕ → Exec S (Unit {0})
  unfolding replenish_pre_keys
  consume_pre_key generate pre_key_id = do
    storage.pre_key_store.delete_pre_key pre_key_id
    current_count ← storage.pre_key_store.pre_key_count
    if ltb current_count min_pre_key_count then replenish_pre_keys generate else pure tt

  unfoldable pub rotate_kyber_pre_key : Identity → Result ℕ → KemKeyPair → Exec S (Unit {0})
  rotate_kyber_pre_key identity_key_pair clock kyber_keypair = do
    max_id ← storage.kyber_pre_key_store.get_max_key_id
    kyber_signature ← lift (kyber.sign identity_key_pair kyber_keypair)
    now ← lift clock
    storage.kyber_pre_key_store.save_key (add_u32 (unwrap_or 0 max_id) 1)
        (kyber.new (add_u32 (unwrap_or 0 max_id) 1) now kyber_keypair kyber_signature)

  unfoldable pub kyber_pre_key_needs_rotation : Result ℕ → Exec S Bool
  unfolding needs_rotation
  kyber_pre_key_needs_rotation = needs_rotation storage.kyber_pre_key_store kyber.timestamp

  unfoldable pub cleanup_expired_kyber_pre_keys : Result ℕ → Exec S (Unit {0})
  unfolding cleanup_expired
  cleanup_expired_kyber_pre_keys clock = do
    now ← lift clock
    cleanup_expired storage.kyber_pre_key_store now
