-- ===== src/Libsignal.antt =====
-- What the code takes from libsignal_protocol about pre-keys and messages, as parameters: the
-- record types, the constructors and accessors that it calls, and what libsignal documents of
-- them.
use lotl.Prelude.{ℕ, ◌≡◌, String, List}
use lotl.Exec.{Result, ok, Exec}

-- `SignedPreKeyRecord` (and `KyberPreKeyRecord`, by the trait `GenericSignedPreKey`): `sign` is
-- `private_key().calculate_signature(&public_key.serialize(), rng)`.
pub record SignedRecordApi (Identity KeyPair Signature R : Type 0) : Type 0 where
  pub sign : Identity → KeyPair → Result Signature
  pub new : ℕ → ℕ → KeyPair → Signature → R
  pub id : R → Result ℕ
  pub timestamp : R → Result ℕ

-- A new record has the id and the timestamp that it was made with.
pub record SignedRecordLaws {Identity KeyPair Signature R : Type 0}
    (api : SignedRecordApi Identity KeyPair Signature R) : Type 0 where
  pub id-new : (i t : ℕ) (k : KeyPair) (s : Signature) → api.id (api.new i t k s) ≡ ok i
  pub timestamp-new :
      (i t : ℕ) (k : KeyPair) (s : Signature) → api.timestamp (api.new i t k s) ≡ ok t

-- An identity signs any key pair, and every record has a timestamp.
pub record SignedRecordTotal {Identity KeyPair Signature R : Type 0}
    (api : SignedRecordApi Identity KeyPair Signature R) : Type 0 where
  pub signature : Identity → KeyPair → Signature
  pub sign_lem : (i : Identity) (k : KeyPair) → api.sign i k ≡ ok (signature i k)
  pub stamped : (r : R) → (t : ℕ) × (api.timestamp r ≡ ok t)

-- `IdentityChange`, which `save_identity` reports.
pub data IdentityChange : Type 0 where
  new_or_unchanged replaced_existing : IdentityChange

-- libsignal's work on the stores that it is handed, of which `S` is the state:
-- `process_prekey_bundle` and `message_encrypt`, at a time, and `message_decrypt`.
pub record Messages (S Bundle Ciphertext : Type 0) : Type 0 where
  pub process_prekey_bundle : ℕ → String × ℕ → Bundle → Exec S (Unit {0})
  pub message_encrypt : ℕ → List ℕ → String × ℕ → Exec S Ciphertext
  pub message_decrypt : Ciphertext → String × ℕ → Exec S (List ℕ)
