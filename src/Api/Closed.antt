-- ===== src/Api/Closed.antt =====
-- An instance of `Lotl` (src/lib.rs) whose storage was closed, which `storage_mut` lets a caller do.
use lotl.Prelude.{◌≡◌, refl, sym, ap, ◌∙◌, Eq, ℕ, String, Bool, true, false, some}
use lotl.Errors.{panicked}
use lotl.Exec.{Result, ok, err, ◌>>=◌}
use lotl.Exec.Ends.{step_ok, step_err, lift_ok, map_err_ok}
use lotl.Sqlite.Storage.{SqliteStorage, session_store, accessed, close, with_stores}
use lotl.Types.{LotlConfig}
use lotl.Sql.{quiet, statement}
use lotl.Device.{Tables}
use lotl.Maintenance.{Readings}
use lotl.Api.State.{
  Lotl, Signal, Draws, access, access_stores, access_result, ensure_storage_initialized-open,
  opened_storage-open, handle_of,
}
use lotl.Api.Sessions.{has_session-open}
use lotl.Api.Bundles.{BundleFormat, generate_prekey_bundle}
use lotl.Api.Calls.{Cipher, delete_session, has_session, perform_key_maintenance}

access_stores-closed :
    (opened : SqliteStorage) (lotl' : Lotl)
    → opened.closed ≡ true
    → access_stores opened lotl' ≡ (err (panicked "Storage has been closed"), lotl')
unfolding access_stores access
access_stores-closed opened lotl' c =
    step_err _ _ lotl' lotl' _
      (ap (λ b. (access_result (accessed b opened.has_identity_store), lotl')) c)

access-closed :
    (opened : SqliteStorage) (lotl' : Lotl)
    → opened.closed ≡ true
    → access session_store opened lotl' ≡ (err (panicked "Storage has been closed"), lotl')
unfolding access
access-closed opened lotl' c =
    ap (λ b. (access_result (accessed b opened.has_session_store), lotl')) c

-- An instance with this storage on a connection whose engine refuses nothing.
abbrev pub instance_on : Tables → LotlConfig → SqliteStorage → Lotl
instance_on tables config opened = record {
  db_connection = quiet tables;
  config = config;
  storage = some opened;
}

-- `close` of the storage that `storage_mut` gives out.
unfoldable pub close_storage : SqliteStorage → Lotl → Result (Unit {0}) × Lotl
close_storage opened lotl' =
    let (r, h) = close (handle_of opened lotl') in
    (r, record lotl' { db_connection = h.connection; storage = some h.storage })

-- What `close` makes of a storage.
abbrev closed_of : Bool → SqliteStorage → SqliteStorage
closed_of true opened = opened
closed_of false opened = with_stores false (record opened { closed = true })

closed_of-closed :
    (b : Bool) (opened : SqliteStorage) → opened.closed ≡ b → (closed_of b opened).closed ≡ true
closed_of-closed true opened e = e
closed_of-closed false opened e = refl

close_storage-closed :
    (b : Bool) (tables : Tables) (config : LotlConfig) (opened : SqliteStorage)
    → opened.closed ≡ b
    → close_storage opened (instance_on tables config opened)
      ≡ (ok tt, instance_on tables config (closed_of b opened))
unfolding close_storage close statement ◌>>=◌
close_storage-closed true tables config opened e = rw e refl
close_storage-closed false tables config opened e = rw e refl

delete_session-closed :
    {Ciphertext : Type 0} (cipher : Cipher Ciphertext) (device : cipher.device_id 1 ≡ ok 1)
    (now : ℕ) (p : String) (lotl' : Lotl) (opened : SqliteStorage)
    → lotl'.storage ≡ some opened
    → opened.closed ≡ true
    → delete_session cipher now p lotl' ≡ (err (panicked "Storage has been closed"), lotl')
unfolding delete_session
delete_session-closed cipher device now p lotl' opened is_some c =
    step_ok _ _ lotl' lotl' tt (ensure_storage_initialized-open now lotl' opened is_some)
    ∙ step_ok _ _ lotl' lotl' opened (opened_storage-open lotl' opened is_some)
    ∙ step_ok _ _ lotl' lotl' 1
        (map_err_ok _ _ lotl' lotl' 1 (lift_ok (cipher.device_id 1) lotl' 1 device))
    ∙ step_err _ _ lotl' lotl' _ (access-closed opened lotl' c)

module _ {IdentityKey IdentityKeyPair Signed Kyber PreKey KeyPair KemKeyPair Signature : Type 0}
    ⦃key_eq : Eq IdentityKey⦄
    (signal : Signal IdentityKey IdentityKeyPair Signed Kyber PreKey KeyPair KemKeyPair
      Signature) where
  generate_prekey_bundle-closed :
      (format : BundleFormat Signed Kyber PreKey) (now : ℕ) (lotl' : Lotl) (opened : SqliteStorage)
      → lotl'.storage ≡ some opened
      → opened.closed ≡ true
      → generate_prekey_bundle signal format now lotl'
        ≡ (err (panicked "Storage has been closed"), lotl')
  unfolding generate_prekey_bundle
  generate_prekey_bundle-closed format now lotl' opened is_some c =
      step_ok _ _ lotl' lotl' tt (ensure_storage_initialized-open now lotl' opened is_some)
      ∙ step_ok _ _ lotl' lotl' opened (opened_storage-open lotl' opened is_some)
      ∙ step_err _ _ lotl' lotl' _ (access_stores-closed opened lotl' c)

  perform_key_maintenance-closed :
      (draws : Draws IdentityKeyPair KeyPair Kyber) (readings : Readings) (key_pair : KeyPair)
      (kyber_keypair : KemKeyPair) (generate : ℕ → KeyPair) (lotl' : Lotl) (opened : SqliteStorage)
      → lotl'.storage ≡ some opened
      → opened.closed ≡ true
      → perform_key_maintenance signal draws readings key_pair kyber_keypair generate lotl'
        ≡ (err (panicked "Storage has been closed"), lotl')
  unfolding perform_key_maintenance
  perform_key_maintenance-closed draws readings key_pair kyber_keypair generate lotl' opened is_some
        c =
      step_ok _ _ lotl' lotl' tt (ensure_storage_initialized-open draws.now lotl' opened is_some)
      ∙ step_ok _ _ lotl' lotl' opened (opened_storage-open lotl' opened is_some)
      ∙ step_err _ _ lotl' lotl' _ (access_stores-closed opened lotl' c)

  -- What the methods do after the storage was closed.
  pub record ShutDown {Ciphertext : Type 0} (cipher : Cipher Ciphertext)
      (format : BundleFormat Signed Kyber PreKey) (before t : Lotl) : Type 0 where
    pub session_deletion :
        (now : ℕ) (p : String)
        → delete_session cipher now p t ≡ (err (panicked "Storage has been closed"), t)
    pub bundle :
        (now : ℕ)
        → generate_prekey_bundle signal format now t ≡ (err (panicked "Storage has been closed"), t)
    pub maintenance :
        (draws : Draws IdentityKeyPair KeyPair Kyber) (readings : Readings) (key_pair : KeyPair)
        (kyber_keypair : KemKeyPair) (generate : ℕ → KeyPair)
        → perform_key_maintenance signal draws readings key_pair kyber_keypair generate t
          ≡ (err (panicked "Storage has been closed"), t)
    pub sessions : (q : String) → (has_session q t).0 ≡ (has_session q before).0

  -- Where libsignal takes 1 for a device id: on an instance with a storage on a connection whose
  -- engine refuses nothing, closing the storage succeeds; from then on the deletion of a session,
  -- the generation of a bundle and the maintenance panic and change nothing, while the sessions
  -- that are reported are those that were reported before.
  pub close_storage-ShutDown :
      {Ciphertext : Type 0} (cipher : Cipher Ciphertext) (format : BundleFormat Signed Kyber PreKey)
      (tables : Tables) (config : LotlConfig) (opened : SqliteStorage)
      → cipher.device_id 1 ≡ ok 1
      → ((close_storage opened (instance_on tables config opened)).0 ≡ ok tt)
        × ShutDown cipher format
            (instance_on tables config opened)
            (close_storage opened (instance_on tables config opened)).1
  close_storage-ShutDown cipher format tables config opened device =
      let s : SqliteStorage = closed_of opened.closed opened in
      let c : s.closed ≡ true = closed_of-closed opened.closed opened refl in
      let t : Lotl = instance_on tables config s in
      rw (close_storage-closed opened.closed tables config opened refl) (
        refl,
        record {
          session_deletion = λ now p. delete_session-closed cipher device now p t s refl c;
          bundle = λ now. generate_prekey_bundle-closed format now t s refl c;
          maintenance = λ draws readings key_pair kyber_keypair generate.
              perform_key_maintenance-closed draws readings key_pair kyber_keypair generate t s refl
                c;
          sessions = λ q.
              ap (λ o. o.0) (has_session-open q t s refl refl)
              ∙ ap (λ o. o.0)
                  (sym (has_session-open q (instance_on tables config opened) opened refl refl));
        },
      )
