-- ===== src/Api/Identity/Interrupted.antt =====
-- A first start that fails after the identity was written.
use lotl.Prelude.{ℕ, ◌≡◌, refl, ap, ◌∙◌, Eq, Option, none, some, List, [], ◌∷◌}
use lotl.Errors.{SqliteError, signal_protocol, invalid_state, database, key_not_found, text}
use lotl.Exec.{ok, err, ◌>>=◌}
use lotl.Exec.Ends.{map_err_ok, caught_result, step_ok, step_err, ok_or-none, lift_ok}
use lotl.Sql.{Connection, quiet, statement-answered, statement-refused}
use lotl.HashMap.{max_key}
use lotl.Sqlite.Tables.{SignalTables}
use lotl.Sqlite.KeyTable
use lotl.Sqlite.KeyTable.{row_or_none, storage_error}
use lotl.Sqlite.SignedPreKeys.{save_signed_pre_key}
use lotl.Sqlite.Identities.{
  get_identity_key_pair, pair_read, set_local_identity_key_pair, set_local_registration_id,
}
use lotl.Rotation.Stores.{generate_signed_pre_key}
use lotl.Maintenance.{as_storage_error}
use lotl.Api.State.{Signal, Draws}
use lotl.Api.Identity.{initialize_identity, create_identity, registration_id_of, storage_at}
use lotl.Api.Laws.{SignalLaws, IsOpenFor, pre_keys_of, container_laws}
use lotl.Api.Identity.Stored.{
  row_for, with_pair, with_identity, get_identity_key_pair-row, get_local_registration_id-row,
  again_of_identity,
}
use lotl.Api.Bundles.{BundleFormat, current_bundle}

-- The engine takes as many statements, and refuses the one after them.
abbrev pub faulty : SignalTables → List (Option SqliteError) → Connection SignalTables
faulty tables faults = record { tables = tables; faults = faults }

module _ {IdentityKey IdentityKeyPair Signed Kyber PreKey KeyPair KemKeyPair Signature : Type 0}
    ⦃key_eq : Eq IdentityKey⦄
    (signal : Signal IdentityKey IdentityKeyPair Signed Kyber PreKey KeyPair KemKeyPair Signature)
    (laws : SignalLaws signal) where
  absent :
      (tables : SignalTables) (rest : List (Option SqliteError))
      → tables.local_identity ≡ none
      → get_identity_key_pair signal.identities (faulty tables (none ∷ rest)) ≡ (
        err (signal_protocol (invalid_state "Local identity key pair not set")),
        faulty tables rest,
      )
  unfolding get_identity_key_pair pair_read ◌>>=◌
  absent tables rest e =
      rw
        (
          statement-answered (λ (t : SignalTables). (row_or_none t.local_identity, t)) tables rest,
          e,
        )
        refl

  pair_taken :
      (draws : Draws IdentityKeyPair KeyPair Kyber) (tables : SignalTables)
      (rest : List (Option SqliteError))
      → tables.local_identity ≡ none
      → set_local_identity_key_pair signal.identities draws.now draws.identity_key_pair
          (faulty tables (none ∷ rest))
        ≡ (ok tt, faulty (with_pair signal laws draws tables) rest)
  unfolding set_local_identity_key_pair
  pair_taken draws tables rest e = rw (statement-answered {A = Unit {0}} _ tables rest, e) refl

  registration_taken :
      (draws : Draws IdentityKeyPair KeyPair Kyber) (tables : SignalTables)
      (rest : List (Option SqliteError))
      → set_local_registration_id draws.now
          (registration_id_of draws.registration)
          (faulty (with_pair signal laws draws tables) (none ∷ rest))
        ≡ (ok tt, faulty (with_identity signal laws draws tables) rest)
  unfolding set_local_registration_id
  registration_taken draws tables rest =
      statement-answered {A = Unit {0}} _ (with_pair signal laws draws tables) rest

  key_refused :
      (id : ℕ) (r : Signed) (tables : SignalTables) (e : SqliteError)
      → save_signed_pre_key signal.signed_format id r (faulty tables (some e ∷ []))
        ≡ (err (storage_error (database e)), quiet tables)
  unfolding save_signed_pre_key KeyTable.save_key ◌>>=◌
  key_refused id r tables e =
      rw
        (
          laws.signed_format_laws.serialize_lem r,
          laws.signed_format_laws.timestamp_lem r,
          laws.signed_format_laws.signature_lem r,
          statement-refused {A = Unit {0}} _ tables e [],
        )
        refl

  generated :
      (draws : Draws IdentityKeyPair KeyPair Kyber) (millis : ℕ) (c : Connection SignalTables)
      → draws.clock ≡ ok millis
      → generate_signed_pre_key
          (storage_at signal draws.now)
          signal.signed
          signal.kyber
          signal.new_pre_key
          draws.identity_key_pair
          1
          draws.clock
          draws.key_pair
          c
        ≡ (
          ok (
              signal.signed.new 1 millis draws.key_pair
                (laws.signed_total.signature draws.identity_key_pair draws.key_pair)),
          c,
        )
  unfolding generate_signed_pre_key ◌>>=◌
  generated draws millis c read =
      rw (read, laws.signed_total.sign_lem draws.identity_key_pair draws.key_pair) refl

  -- The statements up to the one that is refused.
  interrupted :
      (draws : Draws IdentityKeyPair KeyPair Kyber) (millis : ℕ) (tables : SignalTables)
      (e : SqliteError)
      → draws.clock ≡ ok millis
      → tables.local_identity ≡ none
      → initialize_identity signal draws (faulty tables (none ∷ none ∷ none ∷ some e ∷ []))
        ≡ (err (storage_error (database e)), quiet (with_identity signal laws draws tables))
  unfolding initialize_identity create_identity
  interrupted draws millis tables e read missing =
      step_ok _ _ _ _ _ (caught_result _ _ _ _ (absent tables (none ∷ none ∷ some e ∷ []) missing))
      ∙ step_ok _ _ _ _ tt (
          map_err_ok as_storage_error _ _ _ tt
            (pair_taken draws tables (none ∷ some e ∷ []) missing))
      ∙ step_ok _ _ _ _ tt
          (map_err_ok as_storage_error _ _ _ tt (registration_taken draws tables (some e ∷ [])))
      ∙ step_ok _ _ _ _ _ (map_err_ok as_storage_error _ _ _ _ (generated draws millis _ read))
      ∙ step_ok _ _ _ _ 1 (lift_ok _ _ 1 (laws.signed_laws.id-new 1 _ _ _))
      ∙ step_err _ _ _ _ _ (key_refused 1 _ (with_identity signal laws draws tables) e)

  module _ (format : BundleFormat Signed Kyber PreKey) where
    -- With no one-time key there is no bundle.
    no_bundle :
        (draws : Draws IdentityKeyPair KeyPair Kyber) (c : Connection SignalTables)
        → IsOpenFor signal laws c
        → c.tables.local_identity ≡ some (row_for signal laws draws)
        → pre_keys_of signal laws c ≡ []
        → current_bundle signal format c ≡ (err (key_not_found (text "No pre-keys available")), c)
    unfolding current_bundle max_key
    no_bundle draws c open' row empty =
        step_ok _ _ c c _ (get_identity_key_pair-row signal laws draws c open'.quiet_engine row)
        ∙ step_ok _ _ c c _
            (get_local_registration_id-row signal laws draws c open'.quiet_engine row)
        ∙ step_ok _ _ c c none (
            map_err_ok as_storage_error _ c c none (
              (container_laws signal laws 0).pre_key_laws.get_max_pre_key_id_lem c open'
              ∙ ap (λ m. (ok (max_key m), c)) empty))
        ∙ step_err _ _ c c _ (ok_or-none _ c)

    -- Where libsignal signs and reads back what it writes and the clock is past 1970: on a
    -- connection whose tables hold no local identity and no one-time keys, and whose signed and
    -- Kyber rows, if any, are ones that the code writes for their records, when the engine takes
    -- the first three statements of the initialization and refuses the fourth, which saves the
    -- signed pre-key, the initialization fails, but the identity stays; every later
    -- initialization then succeeds, changes nothing and makes no key, and no bundle can be
    -- generated.
    pub initialize_identity-interrupted :
        (draws : Draws IdentityKeyPair KeyPair Kyber) (millis : ℕ) (tables : SignalTables)
        (e : SqliteError)
        → draws.clock ≡ ok millis
        → tables.local_identity ≡ none
        → IsOpenFor signal laws (quiet tables)
        → pre_keys_of signal laws (quiet tables) ≡ []
        → (initialize_identity signal draws (faulty tables (none ∷ none ∷ none ∷ some e ∷ []))
            ≡ (err (storage_error (database e)), quiet (with_identity signal laws draws tables)))
          × ((others : Draws IdentityKeyPair KeyPair Kyber)
              → initialize_identity signal others (quiet (with_identity signal laws draws tables))
                ≡ (ok tt, quiet (with_identity signal laws draws tables)))
          × (current_bundle signal format (quiet (with_identity signal laws draws tables)) ≡ (
            err (key_not_found (text "No pre-keys available")),
            quiet (with_identity signal laws draws tables),
          ))
    initialize_identity-interrupted draws millis tables e read missing open' empty =
        let c : Connection SignalTables = quiet (with_identity signal laws draws tables) in
        (
          interrupted draws millis tables e read missing,
          λ others.
              again_of_identity signal laws others draws.identity_key_pair c
                (get_identity_key_pair-row signal laws draws c refl refl),
          no_bundle draws c
              (record {
                quiet_engine = refl;
                signed_rows = open'.signed_rows;
                kyber_rows = open'.kyber_rows;
                pre_key_rows = open'.pre_key_rows;
              })
              refl empty,
        )
