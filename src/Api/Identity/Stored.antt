-- ===== src/Api/Identity/Stored.antt =====
-- The row of the local identity that a first start writes, and what is read of it.
use lotl.Prelude.{number_eq, ◌≡◌, refl, Eq, none, some, []}
use lotl.Errors.{LotlError, signal_protocol, invalid_state}
use lotl.Exec.{ok, err, ◌>>=◌}
use lotl.Sql.{Connection, quiet, statement-quiet, query-quiet}
use lotl.Sqlite.Tables.{SignalTables, LocalIdentityRow}
use lotl.Sqlite.KeyTable.{row_or_none}
use lotl.Sqlite.Identities.{
  get_identity_key_pair, pair_read, set_local_identity_key_pair, set_local_registration_id,
  get_local_registration_id, registration_read,
}
use lotl.Api.State.{Signal, Draws}
use lotl.Api.Identity.{initialize_identity, registration_id_of}
use lotl.Api.Laws.{SignalLaws}

module _ {IdentityKey IdentityKeyPair Signed Kyber PreKey KeyPair KemKeyPair Signature : Type 0}
    ⦃key_eq : Eq IdentityKey⦄
    (signal : Signal IdentityKey IdentityKeyPair Signed Kyber PreKey KeyPair KemKeyPair Signature)
    (laws : SignalLaws signal) where
  abbrev pub row_for : Draws IdentityKeyPair KeyPair Kyber → LocalIdentityRow
  row_for draws = record {
    registration_id = registration_id_of draws.registration;
    private_key = signal.identities.pair_bytes draws.identity_key_pair;
    public_key =
        signal.identities.key_bytes (signal.identities.identity_key draws.identity_key_pair);
    created_at = draws.now;
    updated_at = draws.now;
  }

  -- The identity that the row holds is read back.
  pub get_identity_key_pair-row :
      (draws : Draws IdentityKeyPair KeyPair Kyber) (c : Connection SignalTables)
      → c.faults ≡ []
      → c.tables.local_identity ≡ some (row_for draws)
      → get_identity_key_pair signal.identities c ≡ (ok draws.identity_key_pair, c)
  unfolding get_identity_key_pair pair_read ◌>>=◌
  get_identity_key_pair-row draws c q e =
      rw
        (
          query-quiet (λ (t : SignalTables). row_or_none t.local_identity) c q,
          e,
          laws.pair_from_lem draws.identity_key_pair,
        )
        refl

  pub get_local_registration_id-row :
      (draws : Draws IdentityKeyPair KeyPair Kyber) (c : Connection SignalTables)
      → c.faults ≡ []
      → c.tables.local_identity ≡ some (row_for draws)
      → get_local_registration_id c ≡ (ok (registration_id_of draws.registration), c)
  unfolding get_local_registration_id registration_read ◌>>=◌
  get_local_registration_id-row draws c q e =
      rw (query-quiet (λ (t : SignalTables). row_or_none t.local_identity) c q, e) refl

  -- With no identity, it cannot be read.
  pub get_identity_key_pair-none :
      (tables : SignalTables)
      → tables.local_identity ≡ none
      → (e : LotlError) × (get_identity_key_pair signal.identities (quiet tables)
          ≡ (err e, quiet tables))
  unfolding get_identity_key_pair pair_read ◌>>=◌
  get_identity_key_pair-none tables e = (
    signal_protocol (invalid_state "Local identity key pair not set"),
    rw (query-quiet (λ (t : SignalTables). row_or_none t.local_identity) (quiet tables) refl, e)
        refl,
  )

  pub again_of_identity :
      (others : Draws IdentityKeyPair KeyPair Kyber) (pair : IdentityKeyPair)
      (t : Connection SignalTables)
      → get_identity_key_pair signal.identities t ≡ (ok pair, t)
      → initialize_identity signal others t ≡ (ok tt, t)
  unfolding initialize_identity ◌>>=◌
  again_of_identity others pair t e = rw e

  -- The two statements that write the identity.
  abbrev pub with_pair : Draws IdentityKeyPair KeyPair Kyber → SignalTables → SignalTables
  with_pair draws tables = record tables {
    local_identity = some (record (row_for draws) { registration_id = 0 });
  }

  abbrev pub with_identity : Draws IdentityKeyPair KeyPair Kyber → SignalTables → SignalTables
  with_identity draws tables = record tables { local_identity = some (row_for draws) }

  pub pair_written :
      (draws : Draws IdentityKeyPair KeyPair Kyber) (tables : SignalTables)
      → tables.local_identity ≡ none
      → set_local_identity_key_pair signal.identities draws.now draws.identity_key_pair
          (quiet tables)
        ≡ (ok tt, quiet (with_pair draws tables))
  unfolding set_local_identity_key_pair
  pair_written draws tables e = rw (statement-quiet {A = Unit {0}} _ (quiet tables) refl, e) refl

  pub registration_written :
      (draws : Draws IdentityKeyPair KeyPair Kyber) (tables : SignalTables)
      → set_local_registration_id draws.now
          (registration_id_of draws.registration)
          (quiet (with_pair draws tables))
        ≡ (ok tt, quiet (with_identity draws tables))
  unfolding set_local_registration_id
  registration_written draws tables =
      statement-quiet {A = Unit {0}} _ (quiet (with_pair draws tables)) refl
