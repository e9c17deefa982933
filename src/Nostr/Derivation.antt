-- ===== src/Nostr/Derivation.antt =====
-- The Nostr keys of an identity: src/integrations/nostr/identity.rs and types.rs.
use lotl.Prelude.{ℕ, ◌≡◌, String, List, arith}
use lotl.Errors.{crypto, text, joined, shown}
use lotl.Exec.{Result, ok, err}

pub record NostrConfig : Type 0 where
  pub derivation_context : String
  pub bundle_tag : String

-- `NostrConfig::default()`
abbrev pub default_nostr_config : NostrConfig
default_nostr_config = record {
  derivation_context = "lotl_nostr_derivation";
  bundle_tag = "lotl_prekey_bundle_v1";
}

pub record NostrKeys (SecretKey PublicKey : Type 0) : Type 0 where
  pub secret_key : SecretKey
  pub public_key : PublicKey

-- HKDF-SHA256 with no salt, from a key and a context to 32 bytes, and the keys of the crate nostr.
pub record NostrCrypto (SecretKey PublicKey : Type 0) : Type 0 where
  pub as_bytes : String → List ℕ
  pub hkdf_expand : List ℕ → List ℕ → Result (List ℕ)
  pub secret_from_slice : List ℕ → Result SecretKey
  pub public_key_of : SecretKey → PublicKey

module _ {SecretKey PublicKey : Type 0} (api : NostrCrypto SecretKey PublicKey) where
  -- `map_err` on the secret key, and the keys
  unfoldable pub keys_from : Result SecretKey → Result (NostrKeys SecretKey PublicKey)
  keys_from (ok secret_key) =
      ok (record { secret_key = secret_key; public_key = api.public_key_of secret_key })
  keys_from (err e) = err (crypto (joined (text "Invalid secret key: ") (shown e)))

  unfoldable pub expanded : Result (List ℕ) → Result (NostrKeys SecretKey PublicKey)
  unfolding keys_from
  expanded (ok derived_key) = keys_from (api.secret_from_slice derived_key)
  expanded (err e) = err (crypto (text "HKDF expansion failed"))

  unfoldable pub derive_nostr_keypair :
      List ℕ → NostrConfig → Result (NostrKeys SecretKey PublicKey)
  unfolding expanded
  derive_nostr_keypair signal_identity_key config =
      expanded (api.hkdf_expand signal_identity_key (api.as_bytes config.derivation_context))

  keys_from-match :
      (r : Result SecretKey) (keys : NostrKeys SecretKey PublicKey)
      → keys_from r ≡ ok keys
      → keys.public_key ≡ api.public_key_of keys.secret_key
  unfolding keys_from
  keys_from-match (ok s) keys e = ground arith
  keys_from-match (err x) keys e = cc

  expanded-match :
      (r : Result (List ℕ)) (keys : NostrKeys SecretKey PublicKey)
      → expanded r ≡ ok keys
      → keys.public_key ≡ api.public_key_of keys.secret_key
  unfolding expanded
  expanded-match (ok bytes) keys e = keys_from-match (api.secret_from_slice bytes) keys e
  expanded-match (err x) keys e = cc

  -- The keys that are derived belong together.
  pub derive_nostr_keypair-match :
      (key : List ℕ) (c : NostrConfig) (keys : NostrKeys SecretKey PublicKey)
      → derive_nostr_keypair key c ≡ ok keys
      → keys.public_key ≡ api.public_key_of keys.secret_key
  unfolding derive_nostr_keypair
  derive_nostr_keypair-match key c keys e = expanded-match _ keys e
