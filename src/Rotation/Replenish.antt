-- ===== src/Rotation/Replenish.antt =====
-- One-time pre-keys: `generate_pre_keys` of src/keys.rs, `replenish_pre_keys` and `consume_pre_key`
-- of src/key_rotation.rs.
use lotl.Prelude.{
  number_eq, ℕ, zero, suc, ◌+◌, ◌-◌, ◌^◌, ◌≤◌, ◌<◌, ◌≡◌, refl, ◌∙◌, true, false, Option, none, some,
  List, [], ◌∷◌, arith, length, ltb, Bool-cases, Option-cases, inl, inr, ◌==◌, ==_iff,
}
use lotl.Prelude.Rows.{Distinct}
use lotl.Exec.{Result, ok, ◌>>=◌}
use lotl.HashMap.{lookup, contains, insert, remove, keys, max_key}
use lotl.HashMap.Laws.{
  contains-le-max, contains-max_none, contains-insert, lookup-insert, length-insert,
  insert-Distinct, remove-Distinct,
}
use lotl.Libsignal.{SignedRecordApi}
use lotl.StorageTrait.{SignalStorageContainer}
use lotl.StorageTrait.Laws.{Becomes, Becomes-then, Becomes-pure, PreKeyLaws}
use lotl.Rotation.Words.{add_u32}
use lotl.Rotation.Stores.{
  unwrap_or, replenish_count, min_pre_key_count, pre_keys_from, generate_pre_keys, save_pre_keys,
  next_pre_key_id, replenish_pre_keys, consume_pre_key,
}

module _ {KeyPair PreKey : Type 0} (new_pre_key : ℕ → KeyPair → PreKey) where
  -- The entries after the loop of saves.
  unfoldable pub saved : List (ℕ × KeyPair) → List (ℕ × PreKey) → List (ℕ × PreKey)
  saved [] m = m
  saved ((id, k) ∷ rest) m = saved rest (insert id (new_pre_key id k) m)

  module _ (generate : ℕ → KeyPair) (start : ℕ) where
    abbrev Below : ℕ → List (ℕ × PreKey) → Type 0
    Below b m = (j : ℕ) → contains j m ≡ true → j < b

    Below-not : (b : ℕ) (m : List (ℕ × PreKey)) → Below b m → contains b m ≡ false
    Below-not b m h = elim (Bool-cases (contains b m)) [
      | inl c ↦ absurd (omega (arith, h b c))
      | inr c ↦ c
    ]

    Below-insert :
        (b : ℕ) (v : PreKey) (m : List (ℕ × PreKey)) → Below b m → Below (suc b) (insert b v m)
    Below-insert b v m h j c = elim (Bool-cases (b == j)) [
      | inl e ↦ ground arith
      | inr e ↦ ground (arith, contains-insert b j v m, h j)
    ]

    word : (i : ℕ) → start + i < 2 ^ 32 → add_u32 start i ≡ start + i
    word i h = omega arith

    length-insert_new :
        (b : ℕ) (v : PreKey) (m : List (ℕ × PreKey))
        → Below b m
        → length (insert b v m) ≡ suc (length m)
    length-insert_new b v m h = ground (arith, length-insert b v m, Below-not b m h)

    next :
        (i : ℕ) (v : PreKey) (m : List (ℕ × PreKey))
        → Below (start + i) m
        → Below (start + suc i) (insert (start + i) v m)
    next i v m h j c = omega (arith, Below-insert (start + i) v m h j c)

    -- With free ids and no overflow each round adds an entry.
    length-saved :
        (rounds i : ℕ) (m : List (ℕ × PreKey))
        → Below (start + i) m
        → start + i + rounds ≤ 2 ^ 32
        → length (saved (pre_keys_from generate start i rounds) m) ≡ length m + rounds
    unfolding saved pre_keys_from
    length-saved zero i m h b = omega arith
    length-saved (suc rounds) i m h b =
        let v : PreKey = new_pre_key (start + i) (generate i) in
        rw (word i (omega arith)) (
          omega (
            arith,
            length-saved rounds (suc i) (insert (start + i) v m) (next i v m h) (omega arith),
            length-insert_new (start + i) v m h,
          ))

    -- Ids outside the range keep their records.
    lookup-saved_other :
        (rounds i : ℕ) (m : List (ℕ × PreKey)) (k : ℕ)
        → start + i + rounds ≤ 2 ^ 32
        → k < start + i
        → lookup k (saved (pre_keys_from generate start i rounds) m) ≡ lookup k m
    unfolding saved pre_keys_from
    lookup-saved_other zero i m k b h = refl
    lookup-saved_other (suc rounds) i m k b h =
        let v : PreKey = new_pre_key (start + i) (generate i) in
        rw (word i (omega arith)) (
          ground (
            arith,
            lookup-saved_other rounds (suc i) (insert (start + i) v m) k,
            lookup-insert (start + i) k v m,
          ))

    -- The id of each round holds the key pair of that round.
    lookup-saved :
        (rounds i : ℕ) (m : List (ℕ × PreKey)) (n : ℕ)
        → start + i + rounds ≤ 2 ^ 32
        → i ≤ n
        → n < i + rounds
        → lookup (start + n) (saved (pre_keys_from generate start i rounds) m)
          ≡ some (new_pre_key (start + n) (generate n))
    unfolding saved pre_keys_from
    lookup-saved zero i m n b h k = absurd (omega arith)
    lookup-saved (suc rounds) i m n b h k =
        let v : PreKey = new_pre_key (start + i) (generate i) in
        rw (word i (omega arith)) (elim (Bool-cases (i == n)) [
          | inl e ↦ rw (← (==_iff i n).0 e) (
              lookup-saved_other rounds (suc i) (insert (start + i) v m) (start + i) (omega arith)
                (omega arith)
              ∙ ground (arith, lookup-insert (start + i) (start + i) v m))
          | inr e ↦
              lookup-saved rounds (suc i) (insert (start + i) v m) n (omega arith) (ground arith)
                (omega arith)
        ])

    saved-Distinct :
        (l : List (ℕ × KeyPair)) (m : List (ℕ × PreKey))
        → Distinct (λ (j : ℕ). j) (keys m)
        → Distinct (λ (j : ℕ). j) (keys (saved l m))
    unfolding saved
    saved-Distinct [] m d = d
    saved-Distinct ((id, k) ∷ l) m d =
        saved-Distinct l _ (insert-Distinct id (new_pre_key id k) m d)

-- No id in use is at or above the one that replenishment starts from.
next_pre_key_id_above :
    {PreKey : Type 0} (m : List (ℕ × PreKey)) (j : ℕ)
    → unwrap_or 0 (max_key m) < 2 ^ 32 - 1
    → contains j m ≡ true
    → j < next_pre_key_id (max_key m)
next_pre_key_id_above m j b h = elim (Option-cases (max_key m)) [
  | inl e ↦ absurd (cc (contains-max_none j m e))
  | inr (k, e) ↦ rw e (omega (arith, contains-le-max j m k h e, rw e at b))
]

next_pre_key_id_fits :
    (o : Option ℕ) → unwrap_or 0 o + 101 ≤ 2 ^ 32 → next_pre_key_id o + 0 + replenish_count ≤ 2 ^ 32
next_pre_key_id_fits none h = omega arith
next_pre_key_id_fits (some b) h = omega arith

-- A hundred new one-time keys, with fresh key pairs under ids that were free; no key is lost.
pub record Replenished {S KeyPair PreKey O : Type 0} (IsReady : S → Type 0)
    (entries : S → List (ℕ × PreKey)) (others : S → O) (new_pre_key : ℕ → KeyPair → PreKey)
    (generate : ℕ → KeyPair) (s : S) (o : Result (Unit {0}) × S) : Type 0 where
  pub succeeds : o.0 ≡ ok tt
  pub ready : IsReady o.1
  pub count : length (entries o.1) ≡ length (entries s) + replenish_count
  pub fresh :
      (i : ℕ)
      → i < replenish_count
      → lookup (next_pre_key_id (max_key (entries s)) + i) (entries o.1)
        ≡ some (new_pre_key (next_pre_key_id (max_key (entries s)) + i) (generate i))
  pub kept :
      (k : ℕ)
      → k < next_pre_key_id (max_key (entries s))
      → lookup k (entries o.1) ≡ lookup k (entries s)
  pub distinct : Distinct (λ (j : ℕ). j) (keys (entries o.1))
  pub frame : others o.1 ≡ others s

module _ {S Signed Kyber PreKey Identity KeyPair KemKeyPair Signature O : Type 0}
    (storage : SignalStorageContainer S Signed Kyber PreKey)
    (signed : SignedRecordApi Identity KeyPair Signature Signed)
    (kyber : SignedRecordApi Identity KemKeyPair Signature Kyber)
    (new_pre_key : ℕ → KeyPair → PreKey) {IsReady : S → Type 0} {entries : S → List (ℕ × PreKey)}
    {others : S → O} (laws : PreKeyLaws IsReady entries others storage.pre_key_store new_pre_key)
    (generate : ℕ → KeyPair) where
  save_pre_keys-Becomes :
      (l : List (ℕ × KeyPair)) (s : S)
      → IsReady s
      → Becomes IsReady entries others s
          (saved new_pre_key l (entries s))
          (save_pre_keys storage signed kyber new_pre_key l s)
  unfolding save_pre_keys saved
  save_pre_keys-Becomes [] s r = Becomes-pure s (entries s) r refl
  save_pre_keys-Becomes ((id, k) ∷ l) s r =
      Becomes-then s (insert id (new_pre_key id k) (entries s)) _ _ _
        (laws.save_pre_key_lem s id k r) (λ t rt e. rw (← e) (save_pre_keys-Becomes l t rt))

  -- Over a ready backend that keeps the laws of a pre-key store, with distinct ids and a hundred ids
  -- left above the greatest: replenishment succeeds, adds a hundred keys with the key pairs that were
  -- generated for them under the ids that follow, keeps every key below and changes no other store.
  pub replenish_pre_keys_adds :
      (s : S)
      → IsReady s
      → Distinct (λ (j : ℕ). j) (keys (entries s))
      → unwrap_or 0 (max_key (entries s)) + 101 ≤ 2 ^ 32
      → Replenished IsReady entries others new_pre_key generate s
          (replenish_pre_keys storage signed kyber new_pre_key generate s)
  unfolding replenish_pre_keys ◌>>=◌
  replenish_pre_keys_adds s ready d room = rw (laws.get_max_pre_key_id_lem s ready) (record {
    succeeds = b.succeeds;
    ready = b.ready;
    count =
        rw b.content
          (length-saved new_pre_key generate start replenish_count 0 (entries s) below fits);
    fresh = λ i h. rw b.content (
        lookup-saved new_pre_key generate start replenish_count 0 (entries s) i fits (omega arith)
          (omega arith));
    kept = λ k h. rw b.content (
        lookup-saved_other new_pre_key generate start replenish_count 0 (entries s) k fits
          (omega arith));
    distinct = rw b.content (saved-Distinct new_pre_key generate start _ (entries s) d);
    frame = b.frame;
  })
    where
      start : ℕ
      start = next_pre_key_id (max_key (entries s))

      fits : start + 0 + replenish_count ≤ 2 ^ 32
      fits = next_pre_key_id_fits (max_key (entries s)) room

      below : (j : ℕ) → contains j (entries s) ≡ true → j < start + 0
      below j h = omega (arith, next_pre_key_id_above (entries s) j (omega arith) h)

      b :
          Becomes IsReady entries others s
            (saved new_pre_key (generate_pre_keys generate start replenish_count) (entries s))
            (save_pre_keys storage signed kyber new_pre_key
              (generate_pre_keys generate start replenish_count)
              s)
      b = save_pre_keys-Becomes (generate_pre_keys generate start replenish_count) s ready

  -- Over a ready backend that keeps the laws of a pre-key store, with distinct ids and a hundred ids
  -- left above the greatest that remains: at least fifty one-time keys are there after a key is
  -- consumed.
  pub consume_pre_key_leaves_enough :
      (s : S) (id : ℕ)
      → IsReady s
      → Distinct (λ (j : ℕ). j) (keys (entries s))
      → unwrap_or 0 (max_key (remove id (entries s))) + 101 ≤ 2 ^ 32
      → min_pre_key_count
        ≤ length (entries (consume_pre_key storage signed kyber new_pre_key generate id s).1)
  unfolding consume_pre_key ◌>>=◌
  consume_pre_key_leaves_enough s id ready d room =
      let t : S = (storage.pre_key_store.delete_pre_key id s).1 in
      let first : Becomes IsReady entries others s (remove id (entries s))
          (storage.pre_key_store.delete_pre_key id s) =
        laws.delete_pre_key_lem s id ready in
      rw (first.succeeds, laws.pre_key_count_lem t first.ready)
        (elim (Bool-cases (ltb (length (entries t)) min_pre_key_count)) [
          | inl few ↦ rw few (
              omega (
                arith,
                (replenish_pre_keys_adds t first.ready
                    (rw first.content (remove-Distinct id (entries s) d))
                    (rw first.content room)).count,
              ))
          | inr many ↦ rw many (ground arith)
        ])
