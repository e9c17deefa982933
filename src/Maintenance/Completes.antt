-- ===== src/Maintenance/Completes.antt =====
-- `perform_key_maintenance` over a backend that keeps the laws of a container.
use lotl.Prelude.{
  number_eq, ℕ, ◌+◌, ◌-◌, ◌^◌, ◌≤◌, ◌<◌, ◌≡◌, refl, ap, ◌∙◌, Bool, List, arith, length, ltb,
  if◌then◌else◌, Bool-cases, inl, inr,
}
use lotl.Prelude.Rows.{Distinct}
use lotl.Exec.{ok, Exec, pure, map_err, ◌>>=◌, ◌>>◌}
use lotl.Exec.Ends.{Ends, Ends-pure, Ends-map_err, Ends-then, Ends-weaken, Ends-step}
use lotl.HashMap.{keys, max_key}
use lotl.Types.{MaintenanceResult}
use lotl.Libsignal.{SignedRecordApi, SignedRecordLaws, SignedRecordTotal}
use lotl.StorageTrait.{SignalStorageContainer}
use lotl.StorageTrait.Container.{ContainerLaws, beside}
use lotl.Rotation.Stores.{
  unwrap_or, min_pre_key_count, replenish_pre_keys, signed_pre_key_needs_rotation,
  kyber_pre_key_needs_rotation, cleanup_expired_signed_pre_keys, cleanup_expired_kyber_pre_keys,
}
use lotl.Rotation.Rotate.{rotate_signed_pre_key_adds, rotate_kyber_pre_key_adds}
use lotl.Rotation.Replenish.{replenish_pre_keys_adds}
use lotl.Maintenance.{Readings, as_storage_error, generated, perform_key_maintenance}
use lotl.Maintenance.Due.{Held, rotation-Ends, cleanup-Ends}

-- The times in milliseconds of a clock that is past 1970.
pub record Times : Type 0 where
  pub signed_check : ℕ
  pub signed_rotation : ℕ
  pub kyber_check : ℕ
  pub kyber_rotation : ℕ
  pub signed_cleanup : ℕ
  pub kyber_cleanup : ℕ

abbrev pub read : Times → Readings
read times = record {
  signed_check = ok times.signed_check;
  signed_rotation = ok times.signed_rotation;
  kyber_check = ok times.kyber_check;
  kyber_rotation = ok times.kyber_rotation;
  signed_cleanup = ok times.signed_cleanup;
  kyber_cleanup = ok times.kyber_cleanup;
}

module _ {S Signed Kyber PreKey Identity KeyPair KemKeyPair Signature O : Type 0}
    (storage : SignalStorageContainer S Signed Kyber PreKey)
    (signed : SignedRecordApi Identity KeyPair Signature Signed)
    (kyber : SignedRecordApi Identity KemKeyPair Signature Kyber)
    (new_pre_key : ℕ → KeyPair → PreKey) {IsReady : S → Type 0}
    {signed_keys : S → List (ℕ × Signed)} {kyber_keys : S → List (ℕ × Kyber)}
    {pre_keys : S → List (ℕ × PreKey)} {others : S → O} {signed_expired : ℕ → Signed → Bool}
    {kyber_expired : ℕ → Kyber → Bool}
    (laws : ContainerLaws IsReady signed_keys kyber_keys pre_keys others storage new_pre_key
      signed_expired kyber_expired) where
  -- A state that maintenance can start from: distinct ids, with room above the greatest.
  pub record Maintainable (s : S) : Type 0 where
    pub ready : IsReady s
    pub signed_ids : Distinct (λ (j : ℕ). j) (keys (signed_keys s))
    pub kyber_ids : Distinct (λ (j : ℕ). j) (keys (kyber_keys s))
    pub pre_key_ids : Distinct (λ (j : ℕ). j) (keys (pre_keys s))
    pub signed_room : unwrap_or 0 (max_key (signed_keys s)) < 2 ^ 32 - 1
    pub kyber_room : unwrap_or 0 (max_key (kyber_keys s)) < 2 ^ 32 - 1
    pub pre_key_room : unwrap_or 0 (max_key (pre_keys s)) + 101 ≤ 2 ^ 32

  -- What maintenance leaves.
  pub record Maintained (s : S) (result : MaintenanceResult) (t : S) : Type 0 where
    pub ready : IsReady t
    pub signed_left : 1 ≤ length (signed_keys t)
    pub kyber_left : 1 ≤ length (kyber_keys t)
    pub pre_keys_left : min_pre_key_count ≤ length (pre_keys t)
    pub counted : length (pre_keys t) ≡ length (pre_keys s) + result.pre_keys_generated
    pub frame : others t ≡ others s

  -- After the replenishment.
  record ToppedUp (s t : S) : Type 0 where
    ready : IsReady t
    enough : min_pre_key_count ≤ length (pre_keys t)
    counted :
        length (pre_keys t)
        ≡ length (pre_keys s) + generated (length (pre_keys t)) (length (pre_keys s))
    frame : beside signed_keys kyber_keys others t ≡ beside signed_keys kyber_keys others s

  ToppedUp-Ends :
      (generate : ℕ → KeyPair) (s : S)
      → IsReady s
      → Distinct (λ (j : ℕ). j) (keys (pre_keys s))
      → unwrap_or 0 (max_key (pre_keys s)) + 101 ≤ 2 ^ 32
      → Ends
          (λ a t. ToppedUp s t)
          ((if ltb (length (pre_keys s)) min_pre_key_count
              then map_err as_storage_error
                  (replenish_pre_keys storage signed kyber new_pre_key generate)
              else pure tt)
            s)
  ToppedUp-Ends generate s r d room =
      elim (Bool-cases (ltb (length (pre_keys s)) min_pre_key_count)) [
        | inl few ↦
            let full =
              replenish_pre_keys_adds storage signed kyber new_pre_key laws.pre_key_laws generate s
                r d room in
            rw few (
              Ends-map_err as_storage_error _ s (record {
                value = tt;
                succeeds = full.succeeds;
                after = record {
                  ready = full.ready;
                  enough = omega (arith, full.count);
                  counted = omega (arith, full.count);
                  frame = full.frame;
                };
              }))
        | inr many ↦ rw many (
            Ends-pure tt s
              (record { ready = r; enough = ground arith; counted = omega arith; frame = refl }))
      ]

  cleaned-Ends :
      (signed_cleanup kyber_cleanup : ℕ) (result : MaintenanceResult) (s t : S)
      → Distinct (λ (j : ℕ). j) (keys (signed_keys t))
      → Distinct (λ (j : ℕ). j) (keys (kyber_keys t))
      → 1 ≤ length (signed_keys t)
      → 1 ≤ length (kyber_keys t)
      → min_pre_key_count ≤ length (pre_keys t)
      → length (pre_keys t) ≡ length (pre_keys s) + result.pre_keys_generated
      → others t ≡ others s
      → IsReady t
      → Ends (Maintained s) (
          (do
            map_err as_storage_error (
                cleanup_expired_signed_pre_keys storage signed kyber new_pre_key
                  (ok signed_cleanup))
            map_err as_storage_error
                (cleanup_expired_kyber_pre_keys storage signed kyber new_pre_key (ok kyber_cleanup))
            pure result)
            t)
  unfolding cleanup_expired_signed_pre_keys cleanup_expired_kyber_pre_keys
  cleaned-Ends signed_cleanup kyber_cleanup result s t ds dk hs hk enough counted frame ready =
      Ends-then _ _ t
        (Ends-map_err _ _ t (cleanup-Ends laws.signed_laws signed_cleanup t ready ds hs))
        (λ a u (ru, su, fu).
          Ends-then _ _ u
            (Ends-map_err _ _ u (
              cleanup-Ends laws.kyber_laws kyber_cleanup u ru (rw (ap (λ x. x.0) fu) dk)
                (rw (ap (λ x. x.0) fu) hk)))
            (λ b v (rv, kv, fv). Ends-pure result v (record {
              ready = rv;
              signed_left = rw (ap (λ x. x.0) fv) su;
              kyber_left = kv;
              pre_keys_left = rw (ap (λ x. x.1) fv, ap (λ x. x.1) fu) enough;
              counted = rw (ap (λ x. x.1) fv, ap (λ x. x.1) fu) counted;
              frame = ap (λ x. x.2) fv ∙ ap (λ x. x.2) fu ∙ frame;
            })))

  -- From the end of the rotations on.
  abbrev after_rotations : Times → (ℕ → KeyPair) → Bool → Bool → Exec S MaintenanceResult
  after_rotations times generate b1 b2 = do
    pre_key_count_before ← storage.pre_key_store.pre_key_count
    (if ltb pre_key_count_before min_pre_key_count
        then map_err as_storage_error (replenish_pre_keys storage signed kyber new_pre_key generate)
        else pure tt)
    pre_key_count_after ← storage.pre_key_store.pre_key_count
    map_err as_storage_error
        (cleanup_expired_signed_pre_keys storage signed kyber new_pre_key (ok times.signed_cleanup))
    map_err as_storage_error
        (cleanup_expired_kyber_pre_keys storage signed kyber new_pre_key (ok times.kyber_cleanup))
    pure (record {
      pre_keys_generated = generated pre_key_count_after pre_key_count_before;
      signed_pre_key_rotated = b1;
      kyber_pre_key_rotated = b2;
    })

  replenished-Ends :
      (times : Times) (generate : ℕ → KeyPair) (b1 b2 : Bool) (s : S)
      → IsReady s
      → Distinct (λ (j : ℕ). j) (keys (signed_keys s))
      → Distinct (λ (j : ℕ). j) (keys (kyber_keys s))
      → Distinct (λ (j : ℕ). j) (keys (pre_keys s))
      → unwrap_or 0 (max_key (pre_keys s)) + 101 ≤ 2 ^ 32
      → 1 ≤ length (signed_keys s)
      → 1 ≤ length (kyber_keys s)
      → Ends (Maintained s) (after_rotations times generate b1 b2 s)
  replenished-Ends times generate b1 b2 s ready ds dk dp room hs hk =
      Ends-step _ _ s s _ (laws.pre_key_laws.pre_key_count_lem s ready) (
        Ends-then _ _ s (ToppedUp-Ends generate s ready dp room) (λ a u full.
          Ends-step _ _ u u _ (laws.pre_key_laws.pre_key_count_lem u full.ready) (
            cleaned-Ends times.signed_cleanup times.kyber_cleanup _ s u
              (rw (ap (λ x. x.0) full.frame) ds) (rw (ap (λ x. x.1) full.frame) dk)
              (rw (ap (λ x. x.0) full.frame) hs) (rw (ap (λ x. x.1) full.frame) hk) full.enough
              full.counted (ap (λ x. x.2) full.frame) full.ready)))

  Maintained-from :
      (s u : S) (result : MaintenanceResult) (t : S)
      → pre_keys u ≡ pre_keys s
      → others u ≡ others s
      → Maintained u result t
      → Maintained s result t
  Maintained-from s u result t e f m = record {
    ready = m.ready;
    signed_left = m.signed_left;
    kyber_left = m.kyber_left;
    pre_keys_left = m.pre_keys_left;
    counted = rw e at m.counted;
    frame = m.frame ∙ f;
  }

  after_rotations-Ends :
      (times : Times) (generate : ℕ → KeyPair) (b1 b2 : Bool) (s t u : S)
      → Maintainable s
      → Held IsReady signed_keys (beside kyber_keys pre_keys others) s t
      → Held IsReady kyber_keys (beside signed_keys pre_keys others) t u
      → Ends (Maintained s) (after_rotations times generate b1 b2 u)
  after_rotations-Ends times generate b1 b2 s t u m h1 h2 =
      let same : pre_keys u ≡ pre_keys s = ap (λ x. x.1) h2.frame ∙ ap (λ x. x.1) h1.frame in
      Ends-weaken
        (λ r w. Maintained-from s u r w same (ap (λ x. x.2) h2.frame ∙ ap (λ x. x.2) h1.frame)) _
        (replenished-Ends times generate b1 b2 u h2.ready (rw (ap (λ x. x.0) h2.frame) h1.distinct)
          h2.distinct (rw same m.pre_key_ids) (rw same m.pre_key_room)
          (rw (ap (λ x. x.0) h2.frame) h1.nonempty) h2.nonempty)

  -- Over a ready backend that keeps the laws of a container, where the ids of each store are
  -- distinct with room above the greatest, the identity can be read, and libsignal signs and
  -- stamps every record: maintenance succeeds, whatever times after 1970 the clock reads and
  -- however old the keys are, and leaves a signed and a Kyber pre-key at least, and fifty
  -- one-time keys at least, reports the number of those that it added, and changes nothing but
  -- the three key stores.
  pub perform_key_maintenance-Ends :
      (get_identity_key_pair : Exec S Identity) (identity : Identity) (times : Times)
      (key_pair : KeyPair) (kyber_keypair : KemKeyPair) (generate : ℕ → KeyPair) (s : S)
      → SignedRecordLaws signed
      → SignedRecordTotal signed
      → SignedRecordTotal kyber
      → get_identity_key_pair s ≡ (ok identity, s)
      → Maintainable s
      → Ends (Maintained s) (
          perform_key_maintenance storage get_identity_key_pair signed kyber new_pre_key
            (read times)
            key_pair
            kyber_keypair
            generate
            s)
  unfolding perform_key_maintenance signed_pre_key_needs_rotation kyber_pre_key_needs_rotation
  perform_key_maintenance-Ends get_identity identity times key_pair kyber_keypair generate s api
        signed_total kyber_total identified m =
      Ends-step _ _ s s identity identified (
        rotation-Ends laws.signed_laws signed.timestamp signed_total.stamped times.signed_check _ _
          _ s m.ready m.signed_ids
          (rotate_signed_pre_key_adds storage signed kyber new_pre_key laws.signed_laws api identity
            times.signed_rotation key_pair (signed_total.signature identity key_pair) s m.ready
            m.signed_ids m.signed_room (signed_total.sign_lem identity key_pair))
          (λ b1 t h1.
            rotation-Ends laws.kyber_laws kyber.timestamp kyber_total.stamped times.kyber_check _ _
              _ t h1.ready (rw (ap (λ x. x.0) h1.frame) m.kyber_ids)
              (rotate_kyber_pre_key_adds storage signed kyber new_pre_key laws.kyber_laws identity
                times.kyber_rotation kyber_keypair (kyber_total.signature identity kyber_keypair) t
                h1.ready (rw (ap (λ x. x.0) h1.frame) m.kyber_ids)
                (rw (ap (λ x. x.0) h1.frame) m.kyber_room)
                (kyber_total.sign_lem identity kyber_keypair))
              (λ b2 u h2. after_rotations-Ends times generate b1 b2 s t u m h1 h2)))
