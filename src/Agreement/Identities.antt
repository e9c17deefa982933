-- ===== src/Agreement/Identities.antt =====
-- The identity stores: `MemoryIdentityStore` and `SqliteIdentityStore`.
pub mod Agree
use lotl.Prelude.{ℕ, String, Bool, Option}
use lotl.Exec.{Exec, pure, ◌>>=◌, ◌>>◌}
use lotl.Libsignal.{IdentityChange}
use lotl.StorageTrait.{IdentityStore}

-- The methods of `IdentityKeyStore` and `ExtendedIdentityStore`. A caller sets the local key pair and
-- the registration id one after the other, as `create_identity` of src/lib.rs does.
pub data IdentityCall (IdentityKey IdentityKeyPair : Type 0) : Type 0 where
  set_local : ℕ → IdentityKeyPair → ℕ → IdentityCall IdentityKey IdentityKeyPair
  local_pair : IdentityCall IdentityKey IdentityKeyPair
  local_registration : IdentityCall IdentityKey IdentityKeyPair
  clear_local : IdentityCall IdentityKey IdentityKeyPair
  save : ℕ → String × ℕ → IdentityKey → IdentityCall IdentityKey IdentityKeyPair
  is_trusted : String × ℕ → IdentityKey → IdentityCall IdentityKey IdentityKeyPair
  get : String × ℕ → IdentityCall IdentityKey IdentityKeyPair
  get_peer : String × ℕ → IdentityCall IdentityKey IdentityKeyPair
  count : IdentityCall IdentityKey IdentityKeyPair
  delete : String × ℕ → IdentityCall IdentityKey IdentityKeyPair
  clear_all : IdentityCall IdentityKey IdentityKeyPair

pub data IdentityAnswer (IdentityKey IdentityKeyPair : Type 0) : Type 0 where
  pair : IdentityKeyPair → IdentityAnswer IdentityKey IdentityKeyPair
  number : ℕ → IdentityAnswer IdentityKey IdentityKeyPair
  change : IdentityChange → IdentityAnswer IdentityKey IdentityKeyPair
  trust : Bool → IdentityAnswer IdentityKey IdentityKeyPair
  key : Option IdentityKey → IdentityAnswer IdentityKey IdentityKeyPair
  done : IdentityAnswer IdentityKey IdentityKeyPair

module _ {S IdentityKey IdentityKeyPair : Type 0}
    (store : IdentityStore S IdentityKey IdentityKeyPair) where
  unfoldable pub answer :
      IdentityCall IdentityKey IdentityKeyPair → Exec S (IdentityAnswer IdentityKey IdentityKeyPair)
  answer (set_local now p id) = do
    store.set_local_identity_key_pair now p
    store.set_local_registration_id now id
    pure done
  answer local_pair = do p ← store.get_identity_key_pair; pure (pair p)
  answer local_registration = do id ← store.get_local_registration_id; pure (number id)
  answer clear_local = do store.clear_local_identity; pure done
  answer (save now a k) = do c ← store.save_identity now a k; pure (change c)
  answer (is_trusted a k) = do b ← store.is_trusted_identity a k; pure (trust b)
  answer (get a) = do k ← store.get_identity a; pure (key k)
  answer (get_peer a) = do k ← store.get_peer_identity a; pure (key k)
  answer count = do n ← store.identity_count; pure (number n)
  answer (delete a) = do store.delete_identity a; pure done
  answer clear_all = do store.clear_all_identities; pure done
