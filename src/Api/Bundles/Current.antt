-- ===== src/Api/Bundles/Current.antt =====
-- The bundle that is made of the keys in the stores.
use lotl.Prelude.{
  number_eq, ℕ, ◌≤◌, ◌≡◌, refl, ap, ◌∙◌, Eq, Option, some, List, length, arith, Option-cases, inl,
  inr,
}
use lotl.Errors.{LotlError}
use lotl.Exec.{Result, ok, pure, lift, ◌>>=◌}
use lotl.Exec.Ends.{Ends, Ends-pure, Ends-step, Ends-lift_step, map_err_ok, ok_or-some}
use lotl.Sql.{Connection}
use lotl.HashMap.{lookup, max_key}
use lotl.HashMap.Laws.{lookup_of_contains, contains-max, max_key-none}
use lotl.StorageTrait.Laws.{or_missing}
use lotl.Sqlite.Tables.{SignalTables}
use lotl.Sqlite.PreKeys.Laws.{get_pre_key_lem}
use lotl.Sqlite.Identities.{get_identity_key_pair, get_local_registration_id}
use lotl.Maintenance.{as_storage_error}
use lotl.Api.State.{Signal}
use lotl.Api.Laws.{SignalLaws, IsOpenFor, signed_of, kyber_of, pre_keys_of, container_laws}
use lotl.Api.Bundles.{SerializableBundle, BundleFormat, current_bundle}

-- What the code relies on: a record has its public key, and bincode reads back a bundle of the
-- package's version.
pub record BundleLaws {Signed Kyber PreKey : Type 0} (format : BundleFormat Signed Kyber PreKey)
    : Type 0 where
  pub pre_key_public_lem : (r : PreKey) → (b : List ℕ) × (format.pre_key_public r ≡ ok b)
  pub signed_public_lem : (r : Signed) → (b : List ℕ) × (format.signed_public r ≡ ok b)
  pub kyber_public_lem : (r : Kyber) → (b : List ℕ) × (format.kyber_public r ≡ ok b)
  pub bytes : SerializableBundle → List ℕ
  pub to_bytes_lem : (b : SerializableBundle) → format.to_bytes b ≡ ok (bytes b)
  pub from_bytes_lem :
      (b : SerializableBundle)
      → b.version ≡ format.package_version
      → format.from_bytes (bytes b) ≡ ok b

-- The newest key of a store that is not empty.
record Newest {R : Type 0} (m : List (ℕ × R)) : Type 0 where
  id : ℕ
  held : R
  greatest : max_key m ≡ some id
  found : lookup id m ≡ some held

greatest_held : {R : Type 0} (m : List (ℕ × R)) → 1 ≤ length m → Newest m
greatest_held {R = R} m h = elim (Option-cases (max_key m)) [
  | inl e ↦ absurd (omega (arith, ap length (max_key-none m e)))
  | inr (k, e) ↦
      let there : (v : R) × (lookup k m ≡ some v) = lookup_of_contains k m (contains-max m k e) in
      record { id = k; held = there.0; greatest = e; found = there.1 }
]

read_found :
    {R S : Type 0} (e : LotlError) (o : Option R) (v : R) (s : S) (m : Result R × S)
    → m ≡ (or_missing e o, s)
    → o ≡ some v
    → m ≡ (ok v, s)
read_found e o v s m h found = h ∙ ap (λ x. (or_missing e x, s)) found

module _ {IdentityKey IdentityKeyPair Signed Kyber PreKey KeyPair KemKeyPair Signature : Type 0}
    ⦃key_eq : Eq IdentityKey⦄
    (signal : Signal IdentityKey IdentityKeyPair Signed Kyber PreKey KeyPair KemKeyPair Signature)
    (laws : SignalLaws signal) (format : BundleFormat Signed Kyber PreKey)
    (bundle_laws : BundleLaws format) where
  -- A device whose identity can be read and which has a key of each kind.
  pub record Publishable (pair : IdentityKeyPair) (registration : ℕ) (c : Connection SignalTables)
      : Type 0 where
    pub is_open : IsOpenFor signal laws c
    pub identity : get_identity_key_pair signal.identities c ≡ (ok pair, c)
    pub registered : get_local_registration_id c ≡ (ok registration, c)
    pub signed_left : 1 ≤ length (signed_of signal laws c)
    pub kyber_left : 1 ≤ length (kyber_of signal laws c)
    pub pre_keys_left : 1 ≤ length (pre_keys_of signal laws c)

  -- The bundle names the newest keys and the identity of the device.
  pub record Published (pair : IdentityKeyPair) (registration : ℕ) (c : Connection SignalTables)
      (b : SerializableBundle) : Type 0 where
    pub version : b.version ≡ format.package_version
    pub registration_id : b.registration_id ≡ registration
    pub device_id : b.device_id ≡ 1
    pub identity_key :
        b.identity_key ≡ signal.identities.key_bytes (signal.identities.identity_key pair)
    pub newest_pre_key : max_key (pre_keys_of signal laws c) ≡ some b.pre_key_id
    pub newest_signed : max_key (signed_of signal laws c) ≡ some b.signed_pre_key_id
    pub newest_kyber : max_key (kyber_of signal laws c) ≡ some b.kyber_pre_key_id

  -- The accessors of the records that were read.
  assembled :
      (pair : IdentityKeyPair) (registration : ℕ) (c : Connection SignalTables)
      (pre_key : Newest (pre_keys_of signal laws c)) (signed' : Newest (signed_of signal laws c))
      (kyber' : Newest (kyber_of signal laws c))
      → Ends
          (λ b t. (t ≡ c) × Published pair registration c b)
          ((do
            pre_key_public ← lift (format.pre_key_public pre_key.held)
            signed_pre_key_public ← lift (format.signed_public signed'.held)
            signed_pre_key_signature ← lift (signal.signed_format.signature signed'.held)
            kyber_pre_key_public ← lift (format.kyber_public kyber'.held)
            kyber_pre_key_signature ← lift (signal.kyber_format.signature kyber'.held)
            pure (record {
              version = format.package_version;
              registration_id = registration;
              device_id = 1;
              pre_key_id = pre_key.id;
              pre_key_public = pre_key_public;
              signed_pre_key_id = signed'.id;
              signed_pre_key_public = signed_pre_key_public;
              signed_pre_key_signature = signed_pre_key_signature;
              identity_key = signal.identities.key_bytes (signal.identities.identity_key pair);
              kyber_pre_key_id = kyber'.id;
              kyber_pre_key_public = kyber_pre_key_public;
              kyber_pre_key_signature = kyber_pre_key_signature;
            }))
            c)
  assembled pair registration c pre_key signed' kyber' =
      Ends-lift_step _ _ c _ (bundle_laws.pre_key_public_lem pre_key.held).1 (
        Ends-lift_step _ _ c _ (bundle_laws.signed_public_lem signed'.held).1 (
          Ends-lift_step _ _ c _ (laws.signed_format_laws.signature_lem signed'.held) (
            Ends-lift_step _ _ c _ (bundle_laws.kyber_public_lem kyber'.held).1 (
              Ends-lift_step _ _ c _ (laws.kyber_format_laws.signature_lem kyber'.held) (
                Ends-pure _ c (
                  refl,
                  record {
                    version = refl;
                    registration_id = refl;
                    device_id = refl;
                    identity_key = refl;
                    newest_pre_key = pre_key.greatest;
                    newest_signed = signed'.greatest;
                    newest_kyber = kyber'.greatest;
                  },
                ))))))

  pub current_bundle-Ends :
      (pair : IdentityKeyPair) (registration : ℕ) (c : Connection SignalTables)
      → Publishable pair registration c
      → Ends (λ b t. (t ≡ c) × Published pair registration c b) (current_bundle signal format c)
  unfolding current_bundle
  current_bundle-Ends pair registration c p =
      let container = container_laws signal laws 0 in
      let pre_key : Newest (pre_keys_of signal laws c) =
        greatest_held (pre_keys_of signal laws c) p.pre_keys_left in
      let signed' : Newest (signed_of signal laws c) =
        greatest_held (signed_of signal laws c) p.signed_left in
      let kyber' : Newest (kyber_of signal laws c) =
        greatest_held (kyber_of signal laws c) p.kyber_left in
      Ends-step _ _ c c pair p.identity (
        Ends-step _ _ c c registration p.registered (
          Ends-step _ _ c c (max_key (pre_keys_of signal laws c))
            (map_err_ok as_storage_error _ c c _
              (container.pre_key_laws.get_max_pre_key_id_lem c p.is_open))
            (Ends-step _ _ c c pre_key.id (ok_or-some _ _ c pre_key.id pre_key.greatest) (
              Ends-step _ _ c c pre_key.held
                (read_found _ _ pre_key.held c _
                  (get_pre_key_lem signal.pre_key_from signal.pre_key_bytes laws.pre_key_laws
                    (λ t. Unit) c pre_key.id
                    (record {
                      quiet_engine = p.is_open.quiet_engine;
                      well_formed = p.is_open.pre_key_rows;
                      rest_ready = tt;
                    }))
                  pre_key.found)
                (Ends-step _ _ c c (max_key (signed_of signal laws c))
                  (map_err_ok as_storage_error _ c c _
                    (container.signed_laws.get_max_key_id_lem c p.is_open))
                  (Ends-step _ _ c c signed'.id (ok_or-some _ _ c signed'.id signed'.greatest) (
                    Ends-step _ _ c c signed'.held
                      (read_found _ _ signed'.held c _
                        (container.signed_laws.get_key_lem c signed'.id p.is_open) signed'.found)
                      (Ends-step _ _ c c (max_key (kyber_of signal laws c))
                        (map_err_ok as_storage_error _ c c _
                          (container.kyber_laws.get_max_key_id_lem c p.is_open))
                        (Ends-step _ _ c c kyber'.id (ok_or-some _ _ c kyber'.id kyber'.greatest) (
                          Ends-step _ _ c c kyber'.held
                            (read_found _ _ kyber'.held c _
                              (container.kyber_laws.get_key_lem c kyber'.id p.is_open) kyber'.found)
                            (assembled pair registration c pre_key signed' kyber')))))))))))
