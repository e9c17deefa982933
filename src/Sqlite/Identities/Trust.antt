-- ===== src/Sqlite/Identities/Trust.antt =====
-- Trust on first use, and what saving a peer's key reports and forgets.
use lotl.Prelude.{
  address_eq, bytes_eq, Eq, ℕ, ◌≡◌, ◌≢◌, String, Option, none, some, ◌==◌, if◌then◌else◌,
  Option-cases, Bool-cases, inl, inr, ap, sym, ◌∙◌, arith,
}
use lotl.Exec.{ok, Result-cases, ◌>>=◌}
use lotl.Sql.{statement, quiet}
use lotl.HashMap.{lookup, insert}
use lotl.HashMap.Laws.{lookup-insert_self, lookup-insert_ne}
use lotl.Sqlite.Tables.{SignalTables, IdentityRow}
use lotl.Libsignal.{IdentityChange, new_or_unchanged, replaced_existing}
use lotl.Sqlite.Identities.{IdentityFormat, save_identity, is_trusted_identity}

module _ {IdentityKey IdentityKeyPair : Type 0} ⦃key_eq : Eq IdentityKey⦄
    (format : IdentityFormat IdentityKey IdentityKeyPair) where
  trusted_found :
      (a : String × ℕ) (stored k' : IdentityKey) (t : SignalTables) (row : IdentityRow)
      → lookup a t.identity_keys ≡ some row
      → format.key_from row.public_key ≡ ok stored
      → (is_trusted_identity format a k' (quiet t)).0 ≡ ok (stored == k')
  unfolding is_trusted_identity statement ◌>>=◌
  trusted_found a stored k' t row h e = rw (h, e)

  trust_depends :
      (b : String × ℕ) (k' : IdentityKey) (t u : SignalTables)
      → lookup b t.identity_keys ≡ lookup b u.identity_keys
      → (is_trusted_identity format b k' (quiet t)).0
        ≡ (is_trusted_identity format b k' (quiet u)).0
  unfolding is_trusted_identity statement ◌>>=◌
  trust_depends b k' t u e = elim (Option-cases (lookup b u.identity_keys)) [
    | inl h ↦ rw (e, h)
    | inr (row, h) ↦ elim (Result-cases (format.key_from row.public_key)) [
      | inl (stored, f) ↦ rw (e, h, f)
      | inr (x, f) ↦ rw (e, h, f)
    ]
  ]

  abbrev saved_row : ℕ → IdentityKey → IdentityRow
  saved_row now k = record {
    public_key = format.key_bytes k;
    trust_level = 0;
    first_seen = now;
    last_seen = now;
    verified_at = none;
  }

  abbrev after_save : ℕ → String × ℕ → IdentityKey → SignalTables → SignalTables
  after_save now a k t = record t { identity_keys = insert a (saved_row now k) t.identity_keys }

  -- What the stored key makes `save_identity` report.
  abbrev pub reported : IdentityKey → Option IdentityRow → IdentityChange
  reported k none = new_or_unchanged
  reported k (some row) =
      if row.public_key == format.key_bytes k then new_or_unchanged else replaced_existing

  -- With an engine that refuses nothing, the save of a key reports a replacement exactly when other
  -- bytes were stored for the address, and writes a row whose trust level, first sighting and
  -- verification are reset.
  pub save_identity_writes :
      (now : ℕ) (a : String × ℕ) (k : IdentityKey) (t : SignalTables)
      → save_identity format now a k (quiet t)
        ≡ (ok (reported k (lookup a t.identity_keys)), quiet (after_save now a k t))
  unfolding save_identity statement ◌>>=◌
  save_identity_writes now a k t = elim (Option-cases (lookup a t.identity_keys)) [
    | inl e ↦ rw e
    | inr (row, e) ↦ rw e
  ]

  module _ (key_round : (k : IdentityKey) → format.key_from (format.key_bytes k) ≡ ok k) where
    -- The address of the saved key.
    is_trusted-save_identity :
        (now : ℕ) (a : String × ℕ) (k k' : IdentityKey) (t : SignalTables)
        → (is_trusted_identity format a k' (save_identity format now a k (quiet t)).1).0
          ≡ ok (k == k')
    is_trusted-save_identity now a k k' t = rw (save_identity_writes now a k t) (
        trusted_found a k k' (after_save now a k t) (saved_row now k)
          (lookup-insert_self a (saved_row now k) t.identity_keys) (key_round k))

    -- Another address.
    is_trusted-save_identity_ne :
        (now : ℕ) (a b : String × ℕ) (k k' : IdentityKey) (t : SignalTables)
        → a ≢ b
        → (is_trusted_identity format b k' (save_identity format now a k (quiet t)).1).0
          ≡ (is_trusted_identity format b k' (quiet t)).0
    is_trusted-save_identity_ne now a b k k' t ne = rw (save_identity_writes now a k t) (
        trust_depends b k' (after_save now a k t) t
          (lookup-insert_ne a b (saved_row now k) t.identity_keys ne))

    -- With an engine that refuses nothing and keys that can be read back: after a key is saved
    -- for an address, exactly that key is trusted there, and the answer about a key of any other
    -- address is what it was before the save.
    pub is_trusted-save_identity_any :
        (now : ℕ) (a b : String × ℕ) (k k' : IdentityKey) (t : SignalTables)
        → (is_trusted_identity format b k' (save_identity format now a k (quiet t)).1).0
          ≡ (if a == b then ok (k == k') else (is_trusted_identity format b k' (quiet t)).0)
    is_trusted-save_identity_any now a b k k' t = elim (Bool-cases (a == b)) [
      | inl e ↦ rw e (
          ap
            (λ (x : String × ℕ).
              (is_trusted_identity format x k' (save_identity format now a k (quiet t)).1).0)
            (sym ((address_eq.same_iff a b).0 e))
          ∙ is_trusted-save_identity now a k k' t)
      | inr e ↦
          rw e
            (is_trusted-save_identity_ne now a b k k' t (ground (arith, address_eq.same_iff a b)))
    ]
