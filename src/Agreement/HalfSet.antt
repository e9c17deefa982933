-- ===== src/Agreement/HalfSet.antt =====
-- A local identity of which only the key pair has been set: here the two identity stores differ.
use lotl.Prelude.{ℕ, ◌≡◌, Eq, none}
use lotl.Errors.{signal_protocol, invalid_state}
use lotl.Exec.{ok, err, ◌>>=◌, ◌>>◌}
use lotl.Sql.{statement, quiet}
use lotl.Sqlite.Tables.{SignalTables}
use lotl.Sqlite.Identities
use lotl.Sqlite.Identities.{IdentityFormat}
use lotl.Memory.Peers
use lotl.Memory.Peers.{MemoryIdentityStore}

module _ {IdentityKey IdentityKeyPair : Type 0} ⦃key_eq : Eq IdentityKey⦄
    (format : IdentityFormat IdentityKey IdentityKeyPair) where
  sqlite_half_set :
      (now : ℕ) (p : IdentityKeyPair) (t : SignalTables)
      → t.local_identity ≡ none
      → ((Identities.set_local_identity_key_pair format now p
            >> Identities.get_local_registration_id)
          (quiet t)).0
        ≡ ok 0
  unfolding Identities.set_local_identity_key_pair Identities.get_local_registration_id statement
      ◌>>=◌
  sqlite_half_set now p t e = simp e

  -- On stores with no local identity and an engine that refuses nothing: once the key pair alone
  -- is set, the memory store reports that the registration id is not set, and the SQLite store
  -- reports 0.
  pub get_local_registration_id-half_set :
      (now : ℕ) (p : IdentityKeyPair) (m : MemoryIdentityStore IdentityKey IdentityKeyPair)
      (t : SignalTables)
      → m.local_registration_id ≡ none
      → t.local_identity ≡ none
      → (((Peers.set_local_identity_key_pair p >> Peers.get_local_registration_id) m).0
          ≡ err (signal_protocol (invalid_state "Local registration ID not set")))
        × (((Identities.set_local_identity_key_pair format now p
                >> Identities.get_local_registration_id)
              (quiet t)).0
            ≡ ok 0)
  unfolding Peers.set_local_identity_key_pair Peers.get_local_registration_id ◌>>=◌
  get_local_registration_id-half_set now p m t e f = (simp e, sqlite_half_set now p t f)
