-- ===== src/Api/Start.antt =====
-- The start of an instance on a new database, through `new` of src/lib.rs.
use lotl.Prelude.{ℕ, ◌≡◌, refl, ◌∙◌, ap, Eq, true, none, some, [], length, arith}
use lotl.Exec.{ok, ◌>>=◌}
use lotl.Exec.Ends.{Ends, Ends-at, Ends-then, Ends-step, step_ok}
use lotl.Sql.{Connection, quiet, statement, create, within, query-quiet}
use lotl.Database.{Database}
use lotl.DbConnection.{SchemaInfo}
use lotl.Contacts
use lotl.History.Store
use lotl.Types.{LotlConfig}
use lotl.Sqlite.Tables.{SignalTables}
use lotl.Sqlite.Storage.{with_stores, new_storage, initialize_schema}
use lotl.Api.State.{
  Lotl, Signal, Draws, signal_connection, app_connection, on_app-query, on_signal-Ends,
  ensure_storage_initialized, opened_storage-open, access_stores-Serves,
}
use lotl.Api.Laws.{SignalLaws, IsOpenFor, signed_of, kyber_of, pre_keys_of}
use lotl.Api.Identity.{ensure_identity_initialized, registration_id_of}
use lotl.Api.Identity.Stored.{row_for}
use lotl.Api.Identity.FirstStart.{NewDevice, initialize_identity-NewDevice}
use lotl.Api.Bundles.{BundleFormat, generate_prekey_bundle}
use lotl.Api.Bundles.Current.{BundleLaws}
use lotl.Api.Bundles.Fresh.{BundleOf, generate_prekey_bundle-Ends}
use lotl.Api.Calls.{started, ensure_contacts_table_initialized, ensure_message_history_initialized}

-- A new instance on a connection whose engine refuses nothing.
abbrev pub unopened : LotlConfig → SignalTables → Database → SchemaInfo → Lotl
unopened config signal app schema_info = record {
  db_connection = quiet (record { signal = signal; app = app; schema_info = schema_info });
  config = config;
  storage = none;
}

-- The storage is opened; only the table of versions changes.
record Opened (config : LotlConfig) (signal : SignalTables) (app : Database) (t : Lotl)
    : Type 0 where
  schema_info : SchemaInfo
  instance_is : t ≡ record {
    db_connection = quiet (record { signal = signal; app = app; schema_info = schema_info });
    config = config;
    storage = some (with_stores true new_storage);
  }

ensure_storage_initialized-Ends :
    (now : ℕ) (config : LotlConfig) (signal : SignalTables) (app : Database) (info : SchemaInfo)
    → Ends
        (λ a t. Opened config signal app t)
        (ensure_storage_initialized now (unopened config signal app info))
unfolding ensure_storage_initialized initialize_schema within statement ◌>>=◌
ensure_storage_initialized-Ends now config signal app none = record {
  value = tt;
  succeeds = refl;
  after = record { schema_info = _; instance_is = refl };
}
ensure_storage_initialized-Ends now config signal app (some rows) = record {
  value = tt;
  succeeds = refl;
  after = record { schema_info = _; instance_is = refl };
}

two_tables : (c : Connection Database) → c.faults ≡ [] → Contacts.init_contacts_table c ≡ (ok tt, c)
unfolding Contacts.init_contacts_table
two_tables c q = step_ok _ _ c c tt (query-quiet (λ t. ok tt) c q) ∙ query-quiet (λ t. ok tt) c q

six_tables :
    (c : Connection Database) → c.faults ≡ [] → Store.init_message_history_tables c ≡ (ok tt, c)
unfolding Store.init_message_history_tables
six_tables c q =
    let one : create c ≡ (ok tt, c) = query-quiet (λ t. ok tt) c q in
    step_ok _ _ c c tt one
    ∙ step_ok _ _ c c tt one
    ∙ step_ok _ _ c c tt one
    ∙ step_ok _ _ c c tt one
    ∙ step_ok _ _ c c tt one
    ∙ one

module _ {IdentityKey IdentityKeyPair Signed Kyber PreKey KeyPair KemKeyPair Signature : Type 0}
    ⦃key_eq : Eq IdentityKey⦄
    (signal : Signal IdentityKey IdentityKeyPair Signed Kyber PreKey KeyPair KemKeyPair Signature)
    (laws : SignalLaws signal) (format : BundleFormat Signed Kyber PreKey)
    (bundle_laws : BundleLaws format) where
  -- An instance that is ready: its storage is open, its device complete, and it can publish a bundle.
  pub record Running (draws : Draws IdentityKeyPair KeyPair Kyber) (kyber_record : Kyber)
      (millis : ℕ) (config : LotlConfig) (app : Database) (t : Lotl) : Type 0 where
    pub storage_open : t.storage ≡ some (with_stores true new_storage)
    pub configured : t.config ≡ config
    pub app_kept : t.db_connection.tables.app ≡ app
    pub device : NewDevice signal laws draws kyber_record millis (signal_connection t)
    pub bundle :
        (now : ℕ)
        → Ends
            (λ bytes u.
              BundleOf signal laws format bundle_laws draws.identity_key_pair
                (registration_id_of draws.registration)
                t
                bytes
                u)
            (generate_prekey_bundle signal format now t)

  publishes :
      (draws : Draws IdentityKeyPair KeyPair Kyber) (kyber_record : Kyber) (millis : ℕ) (t : Lotl)
      (now : ℕ)
      → t.storage ≡ some (with_stores true new_storage)
      → NewDevice signal laws draws kyber_record millis (signal_connection t)
      → Ends
          (λ bytes u.
            BundleOf signal laws format bundle_laws draws.identity_key_pair
              (registration_id_of draws.registration)
              t
              bytes
              u)
          (generate_prekey_bundle signal format now t)
  publishes draws kyber_record millis t now is_open device =
      generate_prekey_bundle-Ends signal laws format bundle_laws now draws.identity_key_pair
        (registration_id_of draws.registration) (row_for signal laws draws) t
        (with_stores true new_storage) is_open
        (record {
          sessions = refl;
          identities = refl;
          pre_keys = refl;
          signed_pre_keys = refl;
          kyber_pre_keys = refl;
        })
        (record {
          is_open = device.is_open;
          identity = device.identity;
          registered = device.registration;
          signed_left = omega (arith, ap length device.signed_pre_key);
          kyber_left = omega (arith, ap length device.kyber_pre_key);
          pre_keys_left = omega (arith, device.pre_keys);
        })
        device.row refl

  -- Where libsignal signs, libsignal and bincode read back what they write and the clock is past
  -- 1970: on a connection whose engine refuses nothing and whose tables hold no local identity
  -- and no pre-keys, the calls of `new` on the new instance succeed, whichever schema versions,
  -- contacts and messages are there; they leave the storage open, the device complete, and the
  -- contacts and messages as they were, and every generation of a bundle then succeeds and gives
  -- back the identity key that the instance reports.
  pub started-Running :
      (draws : Draws IdentityKeyPair KeyPair Kyber) (kyber_record : Kyber) (millis : ℕ)
      (config : LotlConfig) (tables : SignalTables) (app : Database) (info : SchemaInfo)
      → draws.kyber_record ≡ ok kyber_record
      → draws.clock ≡ ok millis
      → tables.local_identity ≡ none
      → IsOpenFor signal laws (quiet tables)
      → signed_of signal laws (quiet tables) ≡ []
      → kyber_of signal laws (quiet tables) ≡ []
      → pre_keys_of signal laws (quiet tables) ≡ []
      → Ends
          (λ a t. Running draws kyber_record millis config app t)
          (started signal draws (unopened config tables app info))
  unfolding started ensure_identity_initialized ensure_contacts_table_initialized
      ensure_message_history_initialized
  started-Running draws kyber_record millis config tables app info drawn read absent open' es ek
        ep =
      Ends-then _ _ _ (ensure_storage_initialized-Ends draws.now config tables app info) (λ a t o.
        rw o.instance_is (
          Ends-then _ _ _
            (Ends-step _ _ _ _ _ (opened_storage-open _ (with_stores true new_storage) refl) (
              Ends-step _ _ _ _ tt
                (access_stores-Serves (with_stores true new_storage) _ (record {
                  sessions = refl;
                  identities = refl;
                  pre_keys = refl;
                  signed_pre_keys = refl;
                  kyber_pre_keys = refl;
                }))
                (on_signal-Ends _ _ (
                  initialize_identity-NewDevice signal laws draws kyber_record millis tables drawn
                    read absent open' es ek ep))))
            (λ b u (device, is_open, configured, kept).
              let q = device.is_open.quiet_engine in
              Ends-step _ _ u u tt (on_app-query _ u (ok tt) (two_tables (app_connection u) q)) (
                Ends-at tt u _ (on_app-query _ u (ok tt) (six_tables (app_connection u) q))
                  (record {
                    storage_open = is_open;
                    configured = configured;
                    app_kept = kept;
                    device = device;
                    bundle = λ now. publishes draws kyber_record millis u now is_open device;
                  })))))
