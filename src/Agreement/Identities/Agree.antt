-- ===== src/Agreement/Identities/Agree.antt =====
-- The two identity stores give the same answers.
use lotl.Prelude.{
  string_eq, address_eq, bytes_eq, Eq, ℕ, ◌≡◌, refl, ap, sym, ◌∙◌, String, Option, none, some, List,
  [], ◌==◌, Bool-eq_of_iff,
}
use lotl.Exec.{Exec, Result, ok, ◌>>=◌}
use lotl.Exec.Trace.{trace, Simulates, trace-Simulates}
use lotl.Sql.{Connection, statement, quiet}
use lotl.HashMap.{lookup}
use lotl.HashMap.Mirror.{
  Mirror, SameOption, lookup-Mirror, insert-Mirror, remove-Mirror, length-Mirror,
}
use lotl.Sqlite.Tables.{SignalTables, IdentityRow, LocalIdentityRow}
use lotl.Sqlite.Identities
use lotl.Sqlite.Identities.{IdentityFormat, sqlite_identity_store}
use lotl.Memory.Peers
use lotl.Memory.Peers.{MemoryIdentityStore, address_key, new_identity_store, memory_identity_store}
use lotl.Memory.Peers.Address.{IsDecimal, address_key_apart}
use lotl.Agreement.Identities.{
  IdentityCall, set_local, local_pair, local_registration, clear_local, save, is_trusted, get,
  get_peer, count, delete, clear_all, IdentityAnswer, number, answer,
}

ok-injective {ℓ} : {A : Type ℓ} (a b : A) → ok a ≡ ok b → a ≡ b
ok-injective a b h = cc

-- What libsignal's keys give back of what they wrote.
pub record IdentityLaws {IdentityKey IdentityKeyPair : Type 0}
    (format : IdentityFormat IdentityKey IdentityKeyPair) : Type 0 where
  pub key_from_lem : (k : IdentityKey) → format.key_from (format.key_bytes k) ≡ ok k
  pub pair_from_lem : (p : IdentityKeyPair) → format.pair_from (format.pair_bytes p) ≡ ok p

module _ {IdentityKey IdentityKeyPair : Type 0} ⦃key_eq : Eq IdentityKey⦄
    (format : IdentityFormat IdentityKey IdentityKeyPair) (laws : IdentityLaws format) where
  bytes_apart : (a b : IdentityKey) → (format.key_bytes a == format.key_bytes b) ≡ (a == b)
  bytes_apart a b =
      Bool-eq_of_iff (format.key_bytes a == format.key_bytes b) (a == b)
        (λ h. (key_eq.same_iff a b).1 (
          ok-injective a b (
            sym (laws.key_from_lem a)
            ∙ ap format.key_from ((bytes_eq.same_iff _ _).0 h)
            ∙ laws.key_from_lem b)))
        (λ h. (bytes_eq.same_iff _ _).1 (ap format.key_bytes ((key_eq.same_iff a b).0 h)))

  abbrev Same : IdentityRow → IdentityKey → Type 0
  Same row k = row.public_key ≡ format.key_bytes k

  -- The local identity is wholly set or not at all.
  abbrev SameLocal : Option IdentityKeyPair → Option ℕ → Option LocalIdentityRow → Type 0
  SameLocal none none none = Unit
  SameLocal none none (some row) = ⊥
  SameLocal none (some r) row = ⊥
  SameLocal (some p) none row = ⊥
  SameLocal (some p) (some r) none = ⊥
  SameLocal (some p) (some r) (some row) =
      (row.private_key ≡ format.pair_bytes p) × (row.registration_id ≡ r)

  module _ (decimal : ℕ → String) (decimal_laws : IsDecimal decimal) where
    abbrev in_memory :
        IdentityCall IdentityKey IdentityKeyPair
        → Exec
            (MemoryIdentityStore IdentityKey IdentityKeyPair)
            (IdentityAnswer IdentityKey IdentityKeyPair)
    in_memory = answer (memory_identity_store decimal)

    abbrev in_sqlite :
        IdentityCall IdentityKey IdentityKeyPair
        → Exec (Connection SignalTables) (IdentityAnswer IdentityKey IdentityKeyPair)
    in_sqlite = answer (sqlite_identity_store format)

    record Match (m : MemoryIdentityStore IdentityKey IdentityKeyPair) (t : SignalTables)
        : Type 0 where
      local : SameLocal m.local_identity_key_pair m.local_registration_id t.local_identity
      mirror : Mirror (address_key decimal) Same t.identity_keys m.identity_keys

    -- One engine that refuses nothing, and the same identities.
    record Matches (m : MemoryIdentityStore IdentityKey IdentityKeyPair)
        (c : Connection SignalTables) : Type 0 where
      tables : SignalTables
      quiet_engine : c ≡ quiet tables
      same : Match m tables

    abbrev Agree :
        Result (IdentityAnswer IdentityKey IdentityKeyPair)
          × MemoryIdentityStore IdentityKey IdentityKeyPair
        → Result (IdentityAnswer IdentityKey IdentityKeyPair) × Connection SignalTables
        → Type 0
    Agree x y = (x.0 ≡ y.0) × Matches x.1 y.1

    unchanged :
        (m : MemoryIdentityStore IdentityKey IdentityKeyPair) (t : SignalTables)
        → Match m t
        → Matches m (quiet t)
    unchanged m t h = record { tables = t; quiet_engine = refl; same = h }

    abbrev with_local :
        List (String × IdentityKey)
        → Option IdentityKeyPair
        → Option ℕ
        → MemoryIdentityStore IdentityKey IdentityKeyPair
    with_local keys p r = record {
      identity_keys = keys;
      local_identity_key_pair = p;
      local_registration_id = r;
    }

    local_agrees :
        (keys : List (String × IdentityKey)) (t : SignalTables) (p : Option IdentityKeyPair)
        (r : Option ℕ) (l : Option LocalIdentityRow)
        → Match (with_local keys p r) (record t { local_identity = l })
        → Agree
            (in_memory local_pair (with_local keys p r))
            (in_sqlite local_pair (quiet (record t { local_identity = l })))
          × Agree
              (in_memory local_registration (with_local keys p r))
              (in_sqlite local_registration (quiet (record t { local_identity = l })))
    unfolding answer Peers.get_identity_key_pair Identities.get_identity_key_pair
        Peers.get_local_registration_id Identities.get_local_registration_id statement ◌>>=◌
    local_agrees keys t none none none h = ((refl, unchanged _ _ h), (refl, unchanged _ _ h))
    local_agrees keys t none none (some row) h = absurd h.local
    local_agrees keys t none (some r) l h = absurd h.local
    local_agrees keys t (some p) none l h = absurd h.local
    local_agrees keys t (some p) (some r) none h = absurd h.local
    local_agrees keys t (some p) (some r) (some row) h =
        rw (ap format.pair_from h.local.0 ∙ laws.pair_from_lem p)
          ((refl, unchanged _ _ h), (ap (λ n. ok (number n)) (sym h.local.1), unchanged _ _ h))

    -- what the look-ups of one address find
    asked :
        (a : String × ℕ) (m : MemoryIdentityStore IdentityKey IdentityKeyPair) (t : SignalTables)
        (o : Option IdentityRow) (p : Option IdentityKey)
        → lookup a t.identity_keys ≡ o
        → lookup (address_key decimal a) m.identity_keys ≡ p
        → SameOption (address_key decimal) Same o p
        → Match m t
        → ((k : IdentityKey)
            → Agree (in_memory (is_trusted a k) m) (in_sqlite (is_trusted a k) (quiet t)))
          × Agree (in_memory (get a) m) (in_sqlite (get a) (quiet t))
          × Agree (in_memory (get_peer a) m) (in_sqlite (get_peer a) (quiet t))
    unfolding answer Peers.is_trusted_identity Identities.is_trusted_identity Peers.get_identity
        Identities.get_identity Peers.get_peer_identity Identities.get_peer_identity statement ◌>>=◌
    asked a m t none none e f s h =
        rw (e, f) (λ k. (refl, unchanged m t h), (refl, unchanged m t h), (refl, unchanged m t h))
    asked a m t none (some y) e f s h = absurd s
    asked a m t (some x) none e f s h = absurd s
    asked a m t (some x) (some y) e f s h =
        rw (e, f, s, laws.key_from_lem y)
          (λ k. (refl, unchanged m t h), (refl, unchanged m t h), (refl, unchanged m t h))

    saved :
        (now : ℕ) (a : String × ℕ) (k : IdentityKey)
        (m : MemoryIdentityStore IdentityKey IdentityKeyPair) (t : SignalTables)
        (o : Option IdentityRow) (p : Option IdentityKey)
        → lookup a t.identity_keys ≡ o
        → lookup (address_key decimal a) m.identity_keys ≡ p
        → SameOption (address_key decimal) Same o p
        → Match m t
        → Agree (in_memory (save now a k) m) (in_sqlite (save now a k) (quiet t))
    unfolding answer Peers.save_identity Identities.save_identity statement ◌>>=◌
    saved now a k m t none none e f s h =
        rw (e, f)
          (
            refl,
            record {
              tables = _;
              quiet_engine = refl;
              same = record {
                local = h.local;
                mirror =
                    insert-Mirror (address_key decimal) Same
                      (address_key_apart decimal decimal_laws) a _ k t.identity_keys m.identity_keys
                      refl h.mirror;
              };
            },
          )
    saved now a k m t none (some y) e f s h = absurd s
    saved now a k m t (some x) none e f s h = absurd s
    saved now a k m t (some x) (some y) e f s h =
        rw (e, f, s, bytes_apart y k)
          (
            refl,
            record {
              tables = _;
              quiet_engine = refl;
              same = record {
                local = h.local;
                mirror =
                    insert-Mirror (address_key decimal) Same
                      (address_key_apart decimal decimal_laws) a _ k t.identity_keys m.identity_keys
                      refl h.mirror;
              };
            },
          )

    abbrev same_entry :
        (a : String × ℕ) (m : MemoryIdentityStore IdentityKey IdentityKeyPair) (t : SignalTables)
        → Match m t
        → SameOption
            (address_key decimal)
            Same
            (lookup a t.identity_keys)
            (lookup (address_key decimal a) m.identity_keys)
    same_entry a m t h =
        lookup-Mirror (address_key decimal) Same (address_key_apart decimal decimal_laws) a
          t.identity_keys m.identity_keys h.mirror

    agrees :
        (call : IdentityCall IdentityKey IdentityKeyPair)
        (m : MemoryIdentityStore IdentityKey IdentityKeyPair) (t : SignalTables)
        → Match m t
        → Agree (in_memory call m) (in_sqlite call (quiet t))
    unfolding answer Peers.set_local_identity_key_pair Identities.set_local_identity_key_pair
        Peers.set_local_registration_id Identities.set_local_registration_id
        Peers.clear_local_identity Identities.clear_local_identity Peers.identity_count
        Identities.identity_count Peers.delete_identity Identities.delete_identity
        Peers.clear_all_identities Identities.clear_all_identities statement ◌>>=◌
    agrees (set_local now p id) m t h = (
      refl,
      record {
        tables = _;
        quiet_engine = refl;
        same = record { local = (refl, refl); mirror = h.mirror };
      },
    )
    agrees local_pair m t h =
        (local_agrees m.identity_keys t m.local_identity_key_pair m.local_registration_id
          t.local_identity h).0
    agrees local_registration m t h =
        (local_agrees m.identity_keys t m.local_identity_key_pair m.local_registration_id
          t.local_identity h).1
    agrees clear_local m t h = (
      refl,
      record { tables = _; quiet_engine = refl; same = record { local = tt; mirror = h.mirror } },
    )
    agrees (save now a k) m t h = saved now a k m t _ _ refl refl (same_entry a m t h) h
    agrees (is_trusted a k) m t h = (asked a m t _ _ refl refl (same_entry a m t h) h).0 k
    agrees (get a) m t h = (asked a m t _ _ refl refl (same_entry a m t h) h).1
    agrees (get_peer a) m t h = (asked a m t _ _ refl refl (same_entry a m t h) h).2
    agrees count m t h = (
      ap (λ n. ok (number n))
          (sym (length-Mirror (address_key decimal) Same t.identity_keys m.identity_keys h.mirror)),
      unchanged m t h,
    )
    agrees (delete a) m t h = (
      refl,
      record {
        tables = _;
        quiet_engine = refl;
        same = record {
          local = h.local;
          mirror =
              remove-Mirror (address_key decimal) Same (address_key_apart decimal decimal_laws) a
                t.identity_keys m.identity_keys h.mirror;
        };
      },
    )
    agrees clear_all m t h = (
      refl,
      record { tables = _; quiet_engine = refl; same = record { local = h.local; mirror = tt } },
    )

    stores_simulate : Simulates in_memory in_sqlite Matches
    stores_simulate call m c h = rw h.quiet_engine (agrees call m h.tables h.same)

    -- Where keys and key pairs that were written are read back, and the text of a device id tells
    -- the ids apart and has no colon: a new memory store and a SQLite store with no identity,
    -- whose engine refuses nothing, give the same answers to any sequence of calls, where the
    -- local key pair and the registration id are always set together.
    pub identity_stores_agree :
        (calls : List (IdentityCall IdentityKey IdentityKeyPair)) (tables : SignalTables)
        → tables.identity_keys ≡ []
        → tables.local_identity ≡ none
        → trace (answer (memory_identity_store decimal)) new_identity_store calls
          ≡ trace (answer (sqlite_identity_store format)) (quiet tables) calls
    identity_stores_agree calls tables no_peers no_local =
        trace-Simulates in_memory in_sqlite Matches stores_simulate calls new_identity_store
          (quiet tables)
          (record {
            tables = tables;
            quiet_engine = refl;
            same = record { local = rw no_local tt; mirror = rw no_peers tt };
          })
