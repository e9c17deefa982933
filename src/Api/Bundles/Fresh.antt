-- ===== src/Api/Bundles/Fresh.antt =====
-- The bundle that an instance publishes, and what is read from it.
use lotl.Prelude.{number_eq, ℕ, ◌≡◌, refl, ap, sym, ◌∙◌, Eq, some, List, []}
use lotl.Exec.{ok, ◌>>=◌}
use lotl.Exec.Ends.{Ends, Ends-step, Ends-lift}
use lotl.Sql.{Connection, query-quiet}
use lotl.Sqlite.KeyTable.{row_or_none}
use lotl.Sqlite.Tables.{SignalTables, LocalIdentityRow}
use lotl.Api.State.{
  Lotl, Signal, signal_connection, on_signal-query, ensure_storage_initialized-open,
  opened_storage-open, handle_of, access_stores-Serves,
}
use lotl.Api.Calls.{get_identity_key, public_key_read}
use lotl.Sqlite.Storage.{SqliteStorage}
use lotl.Sqlite.Storage.Lifecycle.{Serves}
use lotl.Api.Laws.{SignalLaws}
use lotl.Api.Bundles.{
  SerializableBundle, BundleFormat, generate_prekey_bundle, identity_key_from_bundle,
  bundle_version,
}
use lotl.Api.Bundles.Current.{BundleLaws, Publishable, Published, current_bundle-Ends}

-- The key that an instance reports.
pub get_identity_key-row :
    (lotl' : Lotl) (row : LocalIdentityRow)
    → lotl'.db_connection.faults ≡ []
    → lotl'.db_connection.tables.signal.local_identity ≡ some row
    → get_identity_key lotl' ≡ (ok row.public_key, lotl')
unfolding get_identity_key public_key_read ◌>>=◌
get_identity_key-row lotl' row q e =
    rw
      (
        on_signal-query _ lotl' _ (
            query-quiet (λ (t : SignalTables). row_or_none t.local_identity)
              (signal_connection lotl') q),
        e,
      )
      refl

module _ {IdentityKey IdentityKeyPair Signed Kyber PreKey KeyPair KemKeyPair Signature : Type 0}
    ⦃key_eq : Eq IdentityKey⦄
    (signal : Signal IdentityKey IdentityKeyPair Signed Kyber PreKey KeyPair KemKeyPair Signature)
    (laws : SignalLaws signal) (format : BundleFormat Signed Kyber PreKey)
    (bundle_laws : BundleLaws format) where
  -- What an instance publishes, and what a peer reads from it.
  pub record BundleOf (pair : IdentityKeyPair) (registration : ℕ) (lotl' : Lotl) (b : List ℕ)
      (t : Lotl) : Type 0 where
    pub unchanged : t ≡ lotl'
    pub bundle : SerializableBundle
    pub decoded : format.from_bytes b ≡ ok bundle
    pub published :
        Published signal laws format bundle_laws pair registration (signal_connection lotl') bundle
    pub key_read : (identity_key_from_bundle signal format b lotl').0 ≡ (get_identity_key lotl').0
    pub version_read : bundle_version signal format b lotl' ≡ (ok format.package_version, lotl')

  identity_key_from_bundle-bytes :
      (b : SerializableBundle) (lotl' : Lotl)
      → b.version ≡ format.package_version
      → identity_key_from_bundle signal format (bundle_laws.bytes b) lotl'
        ≡ (ok b.identity_key, lotl')
  unfolding identity_key_from_bundle ◌>>=◌
  identity_key_from_bundle-bytes b lotl' v = rw (bundle_laws.from_bytes_lem b v) refl

  bundle_version-bytes :
      (b : SerializableBundle) (lotl' : Lotl)
      → b.version ≡ format.package_version
      → bundle_version signal format (bundle_laws.bytes b) lotl' ≡ (ok b.version, lotl')
  unfolding bundle_version ◌>>=◌
  bundle_version-bytes b lotl' v = rw (bundle_laws.from_bytes_lem b v) refl

  -- Where libsignal signs and libsignal and bincode read back what they write: on an open
  -- instance whose storage gives its stores, which a closed one does not, whose engine refuses
  -- nothing, whose key rows are ones that the code writes for their records, whose identity is
  -- stored and which has a key of each kind, the generation of a bundle succeeds and changes
  -- nothing; the bundle gives back the package's version and the very identity key that the
  -- instance reports, and names the newest key of each kind.
  pub generate_prekey_bundle-Ends :
      (now : ℕ) (pair : IdentityKeyPair) (registration : ℕ) (row : LocalIdentityRow) (lotl' : Lotl)
      (opened : SqliteStorage)
      → lotl'.storage ≡ some opened
      → Serves (handle_of opened lotl')
      → Publishable signal laws format bundle_laws pair registration (signal_connection lotl')
      → lotl'.db_connection.tables.signal.local_identity ≡ some row
      → row.public_key ≡ signal.identities.key_bytes (signal.identities.identity_key pair)
      → Ends
          (λ bytes t. BundleOf pair registration lotl' bytes t)
          (generate_prekey_bundle signal format now lotl')
  unfolding generate_prekey_bundle
  generate_prekey_bundle-Ends now pair registration row lotl' opened is_some serves p held key =
      let c : Connection SignalTables = signal_connection lotl' in
      let made = current_bundle-Ends signal laws format bundle_laws pair registration c p in
      Ends-step _ _ lotl' lotl' tt (ensure_storage_initialized-open now lotl' opened is_some) (
        Ends-step _ _ lotl' lotl' opened (opened_storage-open lotl' opened is_some) (
          Ends-step _ _ lotl' lotl' tt (access_stores-Serves opened lotl' serves) (
            Ends-step _ _ lotl' lotl' made.value
              (on_signal-query _ lotl' (ok made.value) (λ i. (made.succeeds i, made.after.0 i)))
              (Ends-lift (bundle_laws.bytes made.value) lotl' _
                (bundle_laws.to_bytes_lem made.value)
                (record {
                  unchanged = refl;
                  bundle = made.value;
                  decoded = bundle_laws.from_bytes_lem made.value made.after.1.version;
                  published = made.after.1;
                  key_read =
                      ap (λ o. o.0)
                        (identity_key_from_bundle-bytes made.value lotl' made.after.1.version)
                      ∙ ap (λ k. ok k) (made.after.1.identity_key ∙ sym key)
                      ∙ ap (λ o. o.0)
                          (sym (get_identity_key-row lotl' row p.is_open.quiet_engine held));
                  version_read =
                      bundle_version-bytes made.value lotl' made.after.1.version
                      ∙ ap (λ v. (ok v, lotl')) made.after.1.version;
                })))))
