-- ===== src/Memory/Peers.antt =====
-- The sessions and the identities of src/memory_storage.rs, which stand in maps keyed by the text
-- of an address. These stores share nothing with the key stores.
pub mod Address
use lotl.Prelude.{
  string_eq, Eq, ℕ, String, Bool, true, Option, none, some, List, [], length, ◌==◌, concat,
  if◌then◌else◌, ◌≡◌, Bool-cases, inl, inr,
}
use lotl.Errors.{LotlError, signal_protocol, invalid_state}
use lotl.Exec.{ok, Exec, gets, ok_or, unwrap_or, ◌>>=◌}
use lotl.HashMap.{lookup, insert, remove}
use lotl.HashMap.Laws.{lookup-insert}
use lotl.Libsignal.{IdentityChange, new_or_unchanged, replaced_existing}
use lotl.StorageTrait.{SessionStore, IdentityStore}

-- `decimal` is how a u32 is written.
abbrev pub address_key : (ℕ → String) → String × ℕ → String
address_key decimal address = concat (concat address.0 ":") (decimal address.1)

pub record MemorySessionStore (Session : Type 0) : Type 0 where
  pub sessions : List (String × Session)

pub record MemoryIdentityStore (IdentityKey IdentityKeyPair : Type 0) : Type 0 where
  pub identity_keys : List (String × IdentityKey)
  pub local_identity_key_pair : Option IdentityKeyPair
  pub local_registration_id : Option ℕ

-- `MemoryIdentityStore::new()`
abbrev pub new_identity_store :
    {IdentityKey IdentityKeyPair : Type 0} → MemoryIdentityStore IdentityKey IdentityKeyPair
new_identity_store = record {
  identity_keys = [];
  local_identity_key_pair = none;
  local_registration_id = none;
}

module _ {Session : Type 0} where
  unfoldable pub load_session :
      (ℕ → String) → String × ℕ → Exec (MemorySessionStore Session) (Option Session)
  load_session decimal address = gets (λ s. lookup (address_key decimal address) s.sessions)

  unfoldable pub store_session :
      (ℕ → String) → String × ℕ → Session → Exec (MemorySessionStore Session) (Unit {0})
  store_session decimal address record' s =
      (ok tt, record s { sessions = insert (address_key decimal address) record' s.sessions })

  unfoldable pub session_count : Exec (MemorySessionStore Session) ℕ
  session_count = gets (λ s. length s.sessions)

  unfoldable pub clear_all_sessions : Exec (MemorySessionStore Session) (Unit {0})
  clear_all_sessions s = (ok tt, record s { sessions = [] })

  unfoldable pub delete_session :
      (ℕ → String) → String × ℕ → Exec (MemorySessionStore Session) (Unit {0})
  delete_session decimal address s =
      (ok tt, record s { sessions = remove (address_key decimal address) s.sessions })

-- `SignalProtocolError::InvalidState("storage", ...)`
abbrev not_set : String → LotlError
not_set what = signal_protocol (invalid_state what)

module _ {IdentityKey : Type 0} ⦃key_eq : Eq IdentityKey⦄ where
  -- the match on the key that was there
  abbrev pub change_of : IdentityKey → Option IdentityKey → IdentityChange
  change_of identity_key none = new_or_unchanged
  change_of identity_key (some existing) =
      if existing == identity_key then new_or_unchanged else replaced_existing

  abbrev pub trusts : IdentityKey → Option IdentityKey → Bool
  trusts identity_key none = true
  trusts identity_key (some stored_key) = stored_key == identity_key

module _ {IdentityKey IdentityKeyPair : Type 0} where
  unfoldable pub get_identity_key_pair :
      Exec (MemoryIdentityStore IdentityKey IdentityKeyPair) IdentityKeyPair
  get_identity_key_pair = do
    pair ← gets (λ s. s.local_identity_key_pair)
    ok_or (not_set "Local identity key pair not set") pair

  unfoldable pub get_local_registration_id :
      Exec (MemoryIdentityStore IdentityKey IdentityKeyPair) ℕ
  get_local_registration_id = do
    id ← gets (λ s. s.local_registration_id)
    ok_or (not_set "Local registration ID not set") id

  unfoldable pub get_identity :
      (ℕ → String)
      → String × ℕ
      → Exec (MemoryIdentityStore IdentityKey IdentityKeyPair) (Option IdentityKey)
  get_identity decimal address = gets (λ s. lookup (address_key decimal address) s.identity_keys)

  unfoldable pub save_identity :
      ⦃key_eq : Eq IdentityKey⦄
      → (ℕ → String)
      → String × ℕ
      → IdentityKey
      → Exec (MemoryIdentityStore IdentityKey IdentityKeyPair) IdentityChange
  unfolding get_identity
  save_identity decimal address identity_key = do
    existing ← unwrap_or none (get_identity decimal address)
    λ s. (
      ok (change_of identity_key existing),
      record s {
        identity_keys = insert (address_key decimal address) identity_key s.identity_keys;
      },
    )

  unfoldable pub is_trusted_identity :
      ⦃key_eq : Eq IdentityKey⦄
      → (ℕ → String)
      → String × ℕ
      → IdentityKey
      → Exec (MemoryIdentityStore IdentityKey IdentityKeyPair) Bool
  is_trusted_identity decimal address identity_key =
      gets (λ s. trusts identity_key (lookup (address_key decimal address) s.identity_keys))

  unfoldable pub identity_count : Exec (MemoryIdentityStore IdentityKey IdentityKeyPair) ℕ
  identity_count = gets (λ s. length s.identity_keys)

  unfoldable pub set_local_identity_key_pair :
      IdentityKeyPair → Exec (MemoryIdentityStore IdentityKey IdentityKeyPair) (Unit {0})
  set_local_identity_key_pair pair s = (ok tt, record s { local_identity_key_pair = some pair })

  unfoldable pub set_local_registration_id :
      ℕ → Exec (MemoryIdentityStore IdentityKey IdentityKeyPair) (Unit {0})
  set_local_registration_id id s = (ok tt, record s { local_registration_id = some id })

  unfoldable pub get_peer_identity :
      (ℕ → String)
      → String × ℕ
      → Exec (MemoryIdentityStore IdentityKey IdentityKeyPair) (Option IdentityKey)
  get_peer_identity decimal address =
      gets (λ s. lookup (address_key decimal address) s.identity_keys)

  unfoldable pub delete_identity :
      (ℕ → String) → String × ℕ → Exec (MemoryIdentityStore IdentityKey IdentityKeyPair) (Unit {0})
  delete_identity decimal address s =
      (ok tt, record s { identity_keys = remove (address_key decimal address) s.identity_keys })

  unfoldable pub clear_all_identities :
      Exec (MemoryIdentityStore IdentityKey IdentityKeyPair) (Unit {0})
  clear_all_identities s = (ok tt, record s { identity_keys = [] })

  unfoldable pub clear_local_identity :
      Exec (MemoryIdentityStore IdentityKey IdentityKeyPair) (Unit {0})
  clear_local_identity s =
      (ok tt, record s { local_identity_key_pair = none; local_registration_id = none })

module _ {IdentityKey IdentityKeyPair : Type 0} ⦃key_eq : Eq IdentityKey⦄
    (decimal : ℕ → String) where
  -- After a key is saved for an address, exactly that key is trusted for an address with its
  -- text, and for every other address the keys that were trusted before.
  pub is_trusted-save_identity :
      (a b : String × ℕ) (k j : IdentityKey) (s : MemoryIdentityStore IdentityKey IdentityKeyPair)
      → (is_trusted_identity decimal b j (save_identity decimal a k s).1).0
        ≡ ok (
            if address_key decimal a == address_key decimal b
            then k == j
            else trusts j (lookup (address_key decimal b) s.identity_keys))
  unfolding is_trusted_identity save_identity get_identity ◌>>=◌
  is_trusted-save_identity a b k j s =
      elim (Bool-cases (address_key decimal a == address_key decimal b)) [
        | inl e ↦
            rw (lookup-insert (address_key decimal a) (address_key decimal b) k s.identity_keys, e)
        | inr e ↦
            rw (lookup-insert (address_key decimal a) (address_key decimal b) k s.identity_keys, e)
      ]

abbrev pub memory_session_store :
    {Session : Type 0} → (ℕ → String) → SessionStore (MemorySessionStore Session) Session
memory_session_store decimal = record {
  load_session = load_session decimal;
  store_session = λ now. store_session decimal;
  session_count = session_count;
  clear_all_sessions = clear_all_sessions;
  delete_session = delete_session decimal;
}

abbrev pub memory_identity_store :
    {IdentityKey IdentityKeyPair : Type 0} ⦃key_eq : Eq IdentityKey⦄
    → (ℕ → String)
    → IdentityStore (MemoryIdentityStore IdentityKey IdentityKeyPair) IdentityKey IdentityKeyPair
memory_identity_store decimal = record {
  get_identity_key_pair = get_identity_key_pair;
  get_local_registration_id = get_local_registration_id;
  save_identity = λ now. save_identity decimal;
  is_trusted_identity = is_trusted_identity decimal;
  get_identity = get_identity decimal;
  identity_count = identity_count;
  set_local_identity_key_pair = λ now. set_local_identity_key_pair;
  set_local_registration_id = λ now. set_local_registration_id;
  get_peer_identity = get_peer_identity decimal;
  delete_identity = delete_identity decimal;
  clear_all_identities = clear_all_identities;
  clear_local_identity = clear_local_identity;
}
