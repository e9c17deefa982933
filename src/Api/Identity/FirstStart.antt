-- ===== src/Api/Identity/FirstStart.antt =====
-- What the first start of an instance leaves in the database, and what the next start does.
use lotl.Prelude.{number_eq, ℕ, ◌<◌, ◌≡◌, refl, ap, ◌∙◌, Eq, none, some, [], ◌∷◌, length, arith}
use lotl.Exec.{ok, err, lift, map_err, ◌>>=◌, ◌>>◌}
use lotl.Exec.Ends.{
  Ends, Ends-pure, Ends-then, Ends-map_err, Ends-step, Ends-lift_step, map_err_ok, caught_result,
}
use lotl.Sql.{Connection, quiet}
use lotl.HashMap.{insert, max_key}
use lotl.StorageTrait.Container.{Becomes-Ends}
use lotl.Sqlite.Tables.{SignalTables}
use lotl.Sqlite.SignedPreKeys.{save_signed_pre_key}
use lotl.Sqlite.KyberPreKeys.{save_kyber_pre_key}
use lotl.Sqlite.Identities.{get_identity_key_pair, get_local_registration_id}
use lotl.Rotation.Stores.{generate_signed_pre_key, replenish_pre_keys}
use lotl.Rotation.Replenish.{replenish_pre_keys_adds}
use lotl.Maintenance.{as_storage_error}
use lotl.Api.State.{Signal, Draws}
use lotl.Api.Identity.{storage_at, initialize_identity, create_identity, registration_id_of}
use lotl.Api.Laws.{
  SignalLaws, IsOpenFor, signed_of, kyber_of, pre_keys_of, beside_keys, container_laws,
}
use lotl.Api.Identity.Stored.{
  row_for, with_identity, get_identity_key_pair-row, get_local_registration_id-row,
  get_identity_key_pair-none, again_of_identity, pair_written, registration_written,
}

module _ {IdentityKey IdentityKeyPair Signed Kyber PreKey KeyPair KemKeyPair Signature : Type 0}
    ⦃key_eq : Eq IdentityKey⦄
    (signal : Signal IdentityKey IdentityKeyPair Signed Kyber PreKey KeyPair KemKeyPair Signature)
    (laws : SignalLaws signal) where
  -- A device that can be used: an identity with a 14-bit registration id, a signed and a Kyber
  -- pre-key under the id 1, and a hundred one-time keys; another start changes nothing.
  pub record NewDevice (draws : Draws IdentityKeyPair KeyPair Kyber) (kyber_record : Kyber)
      (millis : ℕ) (t : Connection SignalTables) : Type 0 where
    pub is_open : IsOpenFor signal laws t
    pub row : t.tables.local_identity ≡ some (row_for signal laws draws)
    pub identity : get_identity_key_pair signal.identities t ≡ (ok draws.identity_key_pair, t)
    pub registration : get_local_registration_id t ≡ (ok (registration_id_of draws.registration), t)
    pub registration_bound : registration_id_of draws.registration < 16384
    pub signed_pre_key :
        signed_of signal laws t
        ≡ (
          1,
          signal.signed.new 1 millis draws.key_pair
              (laws.signed_total.signature draws.identity_key_pair draws.key_pair),
        )
          ∷ []
    pub kyber_pre_key : kyber_of signal laws t ≡ (1, kyber_record) ∷ []
    pub pre_keys : length (pre_keys_of signal laws t) ≡ 100
    pub again :
        (others : Draws IdentityKeyPair KeyPair Kyber)
        → initialize_identity signal others t ≡ (ok tt, t)

  finished :
      (draws : Draws IdentityKeyPair KeyPair Kyber) (kyber_record : Kyber) (millis : ℕ)
      (c t : Connection SignalTables)
      → c.tables.local_identity ≡ some (row_for signal laws draws)
      → IsOpenFor signal laws t
      → beside_keys signal laws t ≡ beside_keys signal laws c
      → signed_of signal laws t
        ≡ (
          1,
          signal.signed.new 1 millis draws.key_pair
              (laws.signed_total.signature draws.identity_key_pair draws.key_pair),
        )
          ∷ []
      → kyber_of signal laws t ≡ (1, kyber_record) ∷ []
      → length (pre_keys_of signal laws t) ≡ 100
      → NewDevice draws kyber_record millis t
  finished draws kyber_record millis c t row open' frame es ek ep =
      let held : t.tables.local_identity ≡ some (row_for signal laws draws) =
        ap (λ (r : SignalTables). r.local_identity) frame ∙ row in
      let read : get_identity_key_pair signal.identities t ≡ (ok draws.identity_key_pair, t) =
        get_identity_key_pair-row signal laws draws t open'.quiet_engine held in
      record {
        is_open = open';
        row = held;
        identity = read;
        registration = get_local_registration_id-row signal laws draws t open'.quiet_engine held;
        registration_bound = omega arith;
        signed_pre_key = es;
        kyber_pre_key = ek;
        pre_keys = ep;
        again = λ others. again_of_identity signal laws others draws.identity_key_pair t read;
      }

  -- The keys that are made after the identity was written.
  keys_made :
      (draws : Draws IdentityKeyPair KeyPair Kyber) (kyber_record : Kyber) (millis : ℕ)
      (c : Connection SignalTables)
      → draws.kyber_record ≡ ok kyber_record
      → draws.clock ≡ ok millis
      → IsOpenFor signal laws c
      → signed_of signal laws c ≡ []
      → kyber_of signal laws c ≡ []
      → pre_keys_of signal laws c ≡ []
      → c.tables.local_identity ≡ some (row_for signal laws draws)
      → Ends
          (λ a t. NewDevice draws kyber_record millis t)
          ((do
            signed_pre_key ← map_err as_storage_error (
                generate_signed_pre_key
                  (storage_at signal draws.now)
                  signal.signed
                  signal.kyber
                  signal.new_pre_key
                  draws.identity_key_pair
                  1
                  draws.clock
                  draws.key_pair)
            id ← lift (signal.signed.id signed_pre_key)
            save_signed_pre_key signal.signed_format id signed_pre_key
            kyber_record' ← lift draws.kyber_record
            save_kyber_pre_key signal.kyber_format 1 kyber_record'
            map_err as_storage_error (
                replenish_pre_keys
                  (storage_at signal draws.now)
                  signal.signed
                  signal.kyber
                  signal.new_pre_key
                  draws.pre_key_pair))
            c)
  unfolding generate_signed_pre_key insert max_key
  keys_made draws kyber_record millis c drawn read open' es ek ep row =
      let container = container_laws signal laws draws.now in
      let signature : Signature =
        laws.signed_total.signature draws.identity_key_pair draws.key_pair in
      let signed_record : Signed = signal.signed.new 1 millis draws.key_pair signature in
      Ends-then {Q = λ v t. (v ≡ signed_record) × (t ≡ c)} _ _ c
        (Ends-map_err as_storage_error _ c (
          Ends-lift_step _ _ c millis read (
            Ends-lift_step _ _ c signature
              (laws.signed_total.sign_lem draws.identity_key_pair draws.key_pair)
              (Ends-pure signed_record c (refl, refl)))))
        (λ v t (ev, et).
          rw (ev, et)
            (Ends-lift_step _ _ c 1 (laws.signed_laws.id-new 1 millis draws.key_pair signature) (
              Ends-then _ _ c
                (Becomes-Ends _ (container.signed_laws.save_key_lem c 1 signed_record open'))
                (λ a t1 (o1, s1, f1). Ends-lift_step _ _ t1 kyber_record drawn (
                  Ends-then _ _ t1
                    (Becomes-Ends _ (container.kyber_laws.save_key_lem t1 1 kyber_record o1))
                    (λ b t2 (o2, k2, f2).
                      let none_yet : pre_keys_of signal laws t2 ≡ [] =
                        ap (λ x. x.1) f2 ∙ ap (λ x. x.1) f1 ∙ ep in
                      let full =
                        replenish_pre_keys_adds (storage_at signal draws.now) signal.signed
                          signal.kyber signal.new_pre_key container.pre_key_laws draws.pre_key_pair
                          t2 o2 (rw none_yet tt) (rw none_yet (omega arith)) in
                      Ends-map_err as_storage_error _ t2 (record {
                        value = tt;
                        succeeds = full.succeeds;
                        after =
                            finished draws kyber_record millis c _ row full.ready
                              (ap (λ x. x.2) full.frame ∙ ap (λ x. x.2) f2 ∙ ap (λ x. x.2) f1)
                              (ap (λ x. x.0) full.frame
                                ∙ ap (λ x. x.0) f2
                                ∙ s1
                                ∙ ap (insert 1 signed_record) es)
                              (ap (λ x. x.1) full.frame
                                ∙ k2
                                ∙ ap (insert 1 kyber_record) (ap (λ x. x.0) f1 ∙ ek))
                              (full.count ∙ rw none_yet refl);
                      })))))))

  -- Where libsignal signs and reads back what it writes and the clock is past 1970: on a
  -- connection whose engine refuses nothing and whose tables hold no local identity and no
  -- pre-keys, the initialization of the identity succeeds and leaves the drawn identity with a
  -- registration id below 16384, a signed and a Kyber pre-key under the id 1 and a hundred
  -- one-time keys; any later initialization succeeds and changes nothing.
  pub initialize_identity-NewDevice :
      (draws : Draws IdentityKeyPair KeyPair Kyber) (kyber_record : Kyber) (millis : ℕ)
      (tables : SignalTables)
      → draws.kyber_record ≡ ok kyber_record
      → draws.clock ≡ ok millis
      → tables.local_identity ≡ none
      → IsOpenFor signal laws (quiet tables)
      → signed_of signal laws (quiet tables) ≡ []
      → kyber_of signal laws (quiet tables) ≡ []
      → pre_keys_of signal laws (quiet tables) ≡ []
      → Ends
          (λ a t. NewDevice draws kyber_record millis t)
          (initialize_identity signal draws (quiet tables))
  unfolding initialize_identity create_identity
  initialize_identity-NewDevice draws kyber_record millis tables drawn read absent open' es ek ep =
      let missing = get_identity_key_pair-none signal laws tables absent in
      Ends-step _ _ (quiet tables) (quiet tables) (err missing.0) (caught_result _ _ _ _ missing.1)
        (Ends-step _ _ _ _ tt
          (map_err_ok as_storage_error _ _ _ tt (pair_written signal laws draws tables absent))
          (Ends-step _ _ _ _ tt
            (map_err_ok as_storage_error _ _ _ tt (registration_written signal laws draws tables))
            (keys_made draws kyber_record millis (quiet (with_identity signal laws draws tables))
              drawn read
              (record {
                quiet_engine = refl;
                signed_rows = open'.signed_rows;
                kyber_rows = open'.kyber_rows;
                pre_key_rows = open'.pre_key_rows;
              })
              es ek ep refl)))
