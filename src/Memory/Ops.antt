-- ===== src/Memory/Ops.antt =====
-- `ExtendedStorageOps` of `MemoryStorage` in src/memory_storage.rs: libsignal on the stores. What
-- libsignal does with them is a parameter.
use lotl.Prelude.{ℕ, String, List}
use lotl.Exec.{Exec}
use lotl.Memory.{MemoryStorage}
use lotl.Memory.Peers.{MemorySessionStore, MemoryIdentityStore}

-- The five stores of `MemoryStorage`.
pub record Stores (Session IdentityKey IdentityKeyPair Signed Kyber KeyPair : Type 0) : Type 0 where
  pub sessions : MemorySessionStore Session
  pub identities : MemoryIdentityStore IdentityKey IdentityKeyPair
  pub keys : MemoryStorage Signed Kyber KeyPair

-- The two stores that libsignal is handed to establish a session or to encrypt.
abbrev pub Peers : (Session IdentityKey IdentityKeyPair : Type 0) → Type 0
Peers Session IdentityKey IdentityKeyPair =
    MemorySessionStore Session × MemoryIdentityStore IdentityKey IdentityKeyPair

module _ {Session IdentityKey IdentityKeyPair Signed Kyber KeyPair A : Type 0} where
  unfoldable pub on_peers :
      Exec (Peers Session IdentityKey IdentityKeyPair) A
      → Exec (Stores Session IdentityKey IdentityKeyPair Signed Kyber KeyPair) A
  on_peers m s =
      let (r, peers) = m (s.sessions, s.identities) in
      (r, record s { sessions = peers.0; identities = peers.1 })

-- `Given` is a bundle or a ciphertext.
module _ {Session IdentityKey IdentityKeyPair Signed Kyber KeyPair Given : Type 0} where
  -- `timestamp` and `now` are what the clock reads.
  unfoldable pub establish_session_from_bundle :
      (ℕ → String × ℕ → Given → Exec (Peers Session IdentityKey IdentityKeyPair) (Unit {0}))
      → ℕ
      → String × ℕ
      → Given
      → Exec (Stores Session IdentityKey IdentityKeyPair Signed Kyber KeyPair) (Unit {0})
  unfolding on_peers
  establish_session_from_bundle process_prekey_bundle timestamp address bundle =
      on_peers (process_prekey_bundle timestamp address bundle)

  unfoldable pub encrypt_message :
      (ℕ → List ℕ → String × ℕ → Exec (Peers Session IdentityKey IdentityKeyPair) Given)
      → ℕ
      → String × ℕ
      → List ℕ
      → Exec (Stores Session IdentityKey IdentityKeyPair Signed Kyber KeyPair) Given
  unfolding on_peers
  encrypt_message message_encrypt now remote_address plaintext =
      on_peers (message_encrypt now plaintext remote_address)

  unfoldable pub decrypt_message :
      (Given
        → String × ℕ
        → Exec (Stores Session IdentityKey IdentityKeyPair Signed Kyber KeyPair) (List ℕ))
      → String × ℕ
      → Given
      → Exec (Stores Session IdentityKey IdentityKeyPair Signed Kyber KeyPair) (List ℕ)
  decrypt_message message_decrypt remote_address ciphertext =
      message_decrypt ciphertext remote_address
