-- ===== src/Api/Bundles.antt =====
-- Pre-key bundles: `generate_prekey_bundle`, `process_prekey_bundle` and the readers of a bundle of
-- src/lib.rs. bincode and libsignal's public keys are parameters.
pub mod Current
pub mod Fresh
pub mod Session
use lotl.Prelude.{ℕ, Eq, String, Option, none, some, List}
use lotl.Errors.{LotlError, storage, crypto, key_not_found, text, joined, shown}
use lotl.Exec.{Result, Exec, pure, lift, ok_or, map_err, ◌>>=◌, ◌>>◌}
use lotl.Sql.{Connection}
use lotl.Maintenance.{as_storage_error}
use lotl.Sqlite.Tables.{SignalTables}
use lotl.Sqlite.Identities.{get_identity_key_pair, get_local_registration_id}
use lotl.Sqlite.PreKeys.{get_max_pre_key_id, get_pre_key}
use lotl.Sqlite.SignedPreKeys.{get_max_signed_pre_key_id, get_signed_pre_key}
use lotl.Sqlite.KyberPreKeys.{get_max_kyber_pre_key_id, get_kyber_pre_key}
use lotl.Api.State.{
  Lotl, on_signal, ensure_storage_initialized, opened_storage, access_stores, on_storage, Signal,
}
use lotl.Libsignal.{Messages}
use lotl.Sqlite.Storage.Ops.{establish_session_from_bundle}

pub record SerializableBundle : Type 0 where
  pub version : String
  pub registration_id : ℕ
  pub device_id : ℕ
  pub pre_key_id : ℕ
  pub pre_key_public : List ℕ
  pub signed_pre_key_id : ℕ
  pub signed_pre_key_public : List ℕ
  pub signed_pre_key_signature : List ℕ
  pub identity_key : List ℕ
  pub kyber_pre_key_id : ℕ
  pub kyber_pre_key_public : List ℕ
  pub kyber_pre_key_signature : List ℕ

-- `public_key()?.serialize()` of the records, bincode on a bundle, and CARGO_PKG_VERSION.
pub record BundleFormat (Signed Kyber PreKey : Type 0) : Type 0 where
  pub pre_key_public : PreKey → Result (List ℕ)
  pub signed_public : Signed → Result (List ℕ)
  pub kyber_public : Kyber → Result (List ℕ)
  pub to_bytes : SerializableBundle → Result (List ℕ)
  pub from_bytes : List ℕ → Result SerializableBundle
  pub package_version : String

-- What libsignal makes of the fields of a received bundle.
pub record BundleReader (IdentityKey PublicKey KemPublicKey PreKeyBundle : Type 0) : Type 0 where
  pub public_key : List ℕ → Result PublicKey
  pub kem_public_key : List ℕ → Result KemPublicKey
  pub device_id : ℕ → Result ℕ
  pub new_bundle :
      ℕ
      → ℕ
      → ℕ × PublicKey
      → ℕ
      → PublicKey
      → List ℕ
      → ℕ
      → KemPublicKey
      → List ℕ
      → IdentityKey
      → Result PreKeyBundle

-- `.map_err(|e| LotlError::Crypto(format!("...: {}", e)))`
abbrev pub as_crypto_error : String → LotlError → LotlError
as_crypto_error message e = crypto (joined (text message) (shown e))

abbrev pub as_device_error : LotlError → LotlError
as_device_error e = storage (joined (text "Invalid device ID: ") (shown e))

module _ {IdentityKey IdentityKeyPair Signed Kyber PreKey KeyPair KemKeyPair Signature : Type 0}
    ⦃key_eq : Eq IdentityKey⦄
    (signal : Signal IdentityKey IdentityKeyPair Signed Kyber PreKey KeyPair KemKeyPair Signature)
    (format : BundleFormat Signed Kyber PreKey) where
  -- The statements and the accessors, in the source's order.
  unfoldable pub current_bundle : Exec (Connection SignalTables) SerializableBundle
  current_bundle = do
    identity_key_pair ← get_identity_key_pair signal.identities
    registration_id ← get_local_registration_id
    max_pre_key_id ← map_err as_storage_error get_max_pre_key_id
    pre_key_id ← ok_or (key_not_found (text "No pre-keys available")) max_pre_key_id
    pre_key_record ← get_pre_key signal.pre_key_from signal.pre_key_bytes pre_key_id
    max_signed_id ← map_err as_storage_error (get_max_signed_pre_key_id signal.signed_format)
    signed_pre_key_id ← ok_or (key_not_found (text "No signed pre-key available")) max_signed_id
    signed_pre_key_record ← get_signed_pre_key signal.signed_format signed_pre_key_id
    max_kyber_id ← map_err as_storage_error (get_max_kyber_pre_key_id signal.kyber_format)
    kyber_pre_key_id ← ok_or (key_not_found (text "No kyber pre-key available")) max_kyber_id
    kyber_pre_key_record ← get_kyber_pre_key signal.kyber_format kyber_pre_key_id
    pre_key_public ← lift (format.pre_key_public pre_key_record)
    signed_pre_key_public ← lift (format.signed_public signed_pre_key_record)
    signed_pre_key_signature ← lift (signal.signed_format.signature signed_pre_key_record)
    kyber_pre_key_public ← lift (format.kyber_public kyber_pre_key_record)
    kyber_pre_key_signature ← lift (signal.kyber_format.signature kyber_pre_key_record)
    pure (record {
      version = format.package_version;
      registration_id = registration_id;
      device_id = 1;
      pre_key_id = pre_key_id;
      pre_key_public = pre_key_public;
      signed_pre_key_id = signed_pre_key_id;
      signed_pre_key_public = signed_pre_key_public;
      signed_pre_key_signature = signed_pre_key_signature;
      identity_key = signal.identities.key_bytes (signal.identities.identity_key identity_key_pair);
      kyber_pre_key_id = kyber_pre_key_id;
      kyber_pre_key_public = kyber_pre_key_public;
      kyber_pre_key_signature = kyber_pre_key_signature;
    })

  unfoldable pub generate_prekey_bundle : ℕ → Exec Lotl (List ℕ)
  generate_prekey_bundle now = do
    ensure_storage_initialized now
    opened ← opened_storage
    access_stores opened
    bundle ← on_signal current_bundle
    lift (format.to_bytes bundle)

  -- The same body, with the ids beside the bytes.
  unfoldable pub generate_prekey_bundle_with_metadata : ℕ → Exec Lotl (List ℕ × ℕ × ℕ × ℕ)
  generate_prekey_bundle_with_metadata now = do
    ensure_storage_initialized now
    opened ← opened_storage
    access_stores opened
    bundle ← on_signal current_bundle
    bytes ← lift (format.to_bytes bundle)
    pure (bytes, bundle.pre_key_id, bundle.signed_pre_key_id, bundle.kyber_pre_key_id)

  unfoldable pub identity_key_from_bundle : List ℕ → Exec Lotl (List ℕ)
  identity_key_from_bundle bundle_bytes = do
    bundle ← lift (format.from_bytes bundle_bytes)
    pure bundle.identity_key

  unfoldable pub bundle_version : List ℕ → Exec Lotl String
  bundle_version bundle_bytes = do
    bundle ← lift (format.from_bytes bundle_bytes)
    pure bundle.version

  module _ {PublicKey KemPublicKey PreKeyBundle : Type 0} {Ciphertext : Type 0}
      (reader : BundleReader IdentityKey PublicKey KemPublicKey PreKeyBundle)
      (messages : Messages (Connection SignalTables) PreKeyBundle Ciphertext) where
    -- `timestamp` is the time that libsignal is handed.
    unfoldable pub process_prekey_bundle : ℕ → ℕ → String → List ℕ → Exec Lotl (Unit {0})
    unfolding establish_session_from_bundle
    process_prekey_bundle now timestamp peer_id bytes = do
      ensure_storage_initialized now
      serialized ← lift (format.from_bytes bytes)
      opened ← opened_storage
      identity_key ← lift (signal.identities.key_from serialized.identity_key)
      pre_key_public ←
          map_err (as_crypto_error "Failed to deserialize pre-key public: ")
            (lift (reader.public_key serialized.pre_key_public))
      signed_pre_key_public ←
          map_err (as_crypto_error "Failed to deserialize signed pre-key public: ")
            (lift (reader.public_key serialized.signed_pre_key_public))
      kyber_pre_key_public ←
          map_err (as_crypto_error "Failed to deserialize kyber pre-key public: ")
            (lift (reader.kem_public_key serialized.kyber_pre_key_public))
      device_id ← map_err as_device_error (lift (reader.device_id serialized.device_id))
      bundle ← lift (
          reader.new_bundle serialized.registration_id device_id
            (serialized.pre_key_id, pre_key_public) serialized.signed_pre_key_id
            signed_pre_key_public serialized.signed_pre_key_signature serialized.kyber_pre_key_id
            kyber_pre_key_public serialized.kyber_pre_key_signature identity_key)
      address_device ← map_err as_device_error (lift (reader.device_id serialized.device_id))
      on_storage as_storage_error
          (establish_session_from_bundle messages timestamp (peer_id, address_device) bundle) opened
