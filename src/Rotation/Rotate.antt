-- ===== src/Rotation/Rotate.antt =====
-- Rotation of signed and Kyber pre-keys, and the test of a key's age: src/key_rotation.rs.
use lotl.Prelude.{
  number_eq, ℕ, suc, ◌+◌, ◌-◌, ◌^◌, ◌/◌, ◌≤◌, ◌<◌, ◌≡◌, ◌↔◌, ◌∙◌, Bool, true, false, none, some,
  List, [], ◌∷◌, ◌++◌, arith, ltb, Bool-cases, Option-cases, inl, inr,
}
use lotl.Prelude.Rows.{Distinct}
use lotl.Errors.{LotlError}
use lotl.Exec.{Result, ok, ◌>>=◌}
use lotl.HashMap.{lookup, contains, insert, keys, max_key}
use lotl.HashMap.Laws.{
  contains-le-max, contains-max_none, insert_new, max_key-append, insert-Distinct,
}
use lotl.Libsignal.{SignedRecordApi, SignedRecordLaws}
use lotl.StorageTrait.{RotatingStore, SignalStorageContainer}
use lotl.StorageTrait.Laws.{Becomes, RotatingLaws}
use lotl.Rotation.Words.{add_u32, sub_u64}
use lotl.Rotation.Stores.{
  unwrap_or, rotation_interval_secs, needs_rotation, age_check, rotate_signed_pre_key,
  rotate_kyber_pre_key,
}

-- The id after the greatest one is free.
pub next_id_free :
    {R : Type 0} (m : List (ℕ × R)) → contains (suc (unwrap_or 0 (max_key m))) m ≡ false
next_id_free m = elim (Option-cases (max_key m)) [
  | inl e ↦ rw e (contains-max_none 1 m e)
  | inr (b, e) ↦ rw e (elim (Bool-cases (contains (suc b) m)) [
    | inl h ↦ absurd (omega (arith, contains-le-max (suc b) m b h e))
    | inr h ↦ h
  ])
]

below_next_id :
    {R : Type 0} (m : List (ℕ × R)) (j : ℕ)
    → contains j m ≡ true
    → j < suc (unwrap_or 0 (max_key m))
below_next_id m j h = elim (Option-cases (max_key m)) [
  | inl e ↦ absurd (cc (contains-max_none j m e))
  | inr (b, e) ↦ rw e (omega (arith, contains-le-max j m b h e))
]

module _ {S R O : Type 0} {IsReady : S → Type 0} {entries : S → List (ℕ × R)} {others : S → O}
    {st : RotatingStore S R} {missing : LotlError} {expired : ℕ → R → Bool}
    (laws : RotatingLaws IsReady entries others st missing expired) (timestamp : R → Result ℕ) where
  -- With no key at all the test asks for a rotation.
  pub needs_rotation_empty :
      (now : ℕ) (s : S)
      → IsReady s
      → max_key (entries s) ≡ none
      → needs_rotation st timestamp (ok now) s ≡ (ok true, s)
  unfolding needs_rotation ◌>>=◌
  needs_rotation_empty now s r e = rw (laws.get_max_key_id_lem s r, e)

  module _ (now : ℕ) (s : S) (ready : IsReady s) (m ts : ℕ) (v : R)
      (greatest : max_key (entries s) ≡ some m) (found : lookup m (entries s) ≡ some v)
      (stamped : timestamp v ≡ ok ts) where
    age_of_newest :
        needs_rotation st timestamp (ok now) s
        ≡ (ok (ltb rotation_interval_secs (sub_u64 now ts / 1000)), s)
    unfolding needs_rotation ◌>>=◌
    age_of_newest = rw (
      laws.get_max_key_id_lem s ready,
      greatest,
      age_check,
      laws.get_key_lem s m ready,
      found,
      stamped,
    )

    -- Over a ready backend that keeps the laws of a rotating store, whose key with the greatest
    -- id has a timestamp of at most the 64-bit time of the call: the test changes nothing and
    -- asks for a rotation exactly when that key is at least seven days and one second old.
    pub needs_rotation_iff :
        ts ≤ now
        → now < 2 ^ 64
        → (needs_rotation st timestamp (ok now) s ≡ (ok true, s)) ↔ (ts + 604_801_000 ≤ now)
    needs_rotation_iff h b = rw age_of_newest (λ e. ground arith, λ e. ground arith)

    -- Over a ready backend that keeps the laws of a rotating store: where the key with the
    -- greatest id has a timestamp after the time of the call, by 10^18 milliseconds at most, the
    -- test asks for a rotation too, since the subtraction of u64 wraps.
    pub needs_rotation_future :
        now < ts
        → ts ≤ now + 1_000_000_000_000_000_000
        → needs_rotation st timestamp (ok now) s ≡ (ok true, s)
    needs_rotation_future h b = rw age_of_newest (ground arith)

-- The new key stands under the next id, above all others; nothing else is touched.
pub record Rotated {S R O : Type 0} (IsReady : S → Type 0) (entries : S → List (ℕ × R))
    (others : S → O) (s : S) (v : R) (o : Result (Unit {0}) × S) : Type 0 where
  pub succeeds : o.0 ≡ ok tt
  pub ready : IsReady o.1
  pub content : entries o.1 ≡ entries s ++ (suc (unwrap_or 0 (max_key (entries s))), v) ∷ []
  pub newest : max_key (entries o.1) ≡ some (suc (unwrap_or 0 (max_key (entries s))))
  pub distinct : Distinct (λ (j : ℕ). j) (keys (entries o.1))
  pub frame : others o.1 ≡ others s

module _ {S R O : Type 0} {IsReady : S → Type 0} {entries : S → List (ℕ × R)} {others : S → O}
    (s : S) (v : R) (distinct : Distinct (λ (j : ℕ). j) (keys (entries s))) where
  Rotated-of_insert :
      (o : Result (Unit {0}) × S)
      → Becomes IsReady entries others s
          (insert (suc (unwrap_or 0 (max_key (entries s)))) v (entries s))
          o
      → Rotated IsReady entries others s v o
  Rotated-of_insert o b = record {
    succeeds = b.succeeds;
    ready = b.ready;
    content = b.content ∙ appended;
    newest = rw (b.content ∙ appended) (max_key-append (entries s) _ v (below_next_id (entries s)));
    distinct = rw b.content (insert-Distinct _ v (entries s) distinct);
    frame = b.frame;
  }
    where
      appended :
          insert (suc (unwrap_or 0 (max_key (entries s)))) v (entries s)
          ≡ entries s ++ (suc (unwrap_or 0 (max_key (entries s))), v) ∷ []
      appended = insert_new _ v (entries s) (next_id_free (entries s))

next_word : (n : ℕ) → n < 2 ^ 32 - 1 → add_u32 n 1 ≡ suc n
next_word n h = omega arith

module _ {S Signed Kyber PreKey Identity KeyPair KemKeyPair Signature O : Type 0}
    (storage : SignalStorageContainer S Signed Kyber PreKey)
    (signed : SignedRecordApi Identity KeyPair Signature Signed)
    (kyber : SignedRecordApi Identity KemKeyPair Signature Kyber)
    (new_pre_key : ℕ → KeyPair → PreKey) {IsReady : S → Type 0} {others : S → O} where
  -- Over a ready backend that keeps the laws of a rotating store, with distinct ids of which the
  -- greatest is below 2^32 - 1, and where libsignal signs: the rotation of the signed pre-key
  -- succeeds, adds a new record with the time of the call under the id after the greatest, keeps
  -- every other key, and changes no other store.
  pub rotate_signed_pre_key_adds :
      {entries : S → List (ℕ × Signed)} {missing : LotlError} {expired : ℕ → Signed → Bool}
      (laws : RotatingLaws IsReady entries others storage.signed_pre_key_store missing expired)
      (api : SignedRecordLaws signed) (identity : Identity) (now : ℕ) (key_pair : KeyPair)
      (signature : Signature) (s : S)
      → IsReady s
      → Distinct (λ (j : ℕ). j) (keys (entries s))
      → unwrap_or 0 (max_key (entries s)) < 2 ^ 32 - 1
      → signed.sign identity key_pair ≡ ok signature
      → Rotated IsReady entries others s
          (signed.new (suc (unwrap_or 0 (max_key (entries s)))) now key_pair signature)
          (rotate_signed_pre_key storage signed kyber new_pre_key identity (ok now) key_pair s)
  unfolding rotate_signed_pre_key ◌>>=◌
  rotate_signed_pre_key_adds {entries} laws api identity now key_pair signature s ready d room
        signs =
      rw (laws.get_max_key_id_lem s ready, signs, next_word _ room, api.id-new)
        (Rotated-of_insert s _ d _ (laws.save_key_lem s _ _ ready))

  -- Over a ready backend whose Kyber store keeps the laws of a rotating store, with distinct ids
  -- of which the greatest is below 2^32 - 1, and where libsignal signs: the rotation of the Kyber
  -- pre-key succeeds, adds a new record with the time of the call under the id after the
  -- greatest, keeps every other key, and changes no other store.
  pub rotate_kyber_pre_key_adds :
      {entries : S → List (ℕ × Kyber)} {missing : LotlError} {expired : ℕ → Kyber → Bool}
      (laws : RotatingLaws IsReady entries others storage.kyber_pre_key_store missing expired)
      (identity : Identity) (now : ℕ) (key_pair : KemKeyPair) (signature : Signature) (s : S)
      → IsReady s
      → Distinct (λ (j : ℕ). j) (keys (entries s))
      → unwrap_or 0 (max_key (entries s)) < 2 ^ 32 - 1
      → kyber.sign identity key_pair ≡ ok signature
      → Rotated IsReady entries others s
          (kyber.new (suc (unwrap_or 0 (max_key (entries s)))) now key_pair signature)
          (rotate_kyber_pre_key storage signed kyber new_pre_key identity (ok now) key_pair s)
  unfolding rotate_kyber_pre_key ◌>>=◌
  rotate_kyber_pre_key_adds laws identity now key_pair signature s ready d room signs =
      rw (laws.get_max_key_id_lem s ready, signs, next_word _ room)
        (Rotated-of_insert s _ d _ (laws.save_key_lem s _ _ ready))
