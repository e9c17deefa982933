-- ===== src/Nostr/RoundTrip.antt =====
-- What a store of a Nostr key changes, with an engine that refuses nothing.
use lotl.Prelude.{
  string_eq, ◌≡◌, ◌≢◌, ap, sym, ◌∙◌, eq_iff, String, Bool, true, false, not, ◌&&◌, Option, none,
  some, List, [], ◌∷◌, ◌++◌, ◌==◌, ◌⊎◌, inl, inr, first_where, any_where, delete_where, arith,
  Bool-cases, All, if◌then◌else◌,
}
use mathlib.Core.Option.{map}
use lotl.Prelude.Rows.{Distinct, All-mono, All-deleted}
use lotl.Prelude.Lookup.{
  first_where-append, first_where-last_ne, first_where-delete_ne, first_where_of_All,
}
use lotl.Exec.{ok, err, ◌>>=◌}
use lotl.Sql.{statement, quiet}
use lotl.Database.{Database, NostrRow}
use lotl.Contacts.{is_contact}
use lotl.Nostr.{
  has_fingerprint, has_pubkey, insert_or_replace_nostr, get_nostr_pubkey,
  get_fingerprint_by_nostr_pubkey, already_associated, nostr_row, store_unless_taken,
  store_nostr_identity,
}
use lotl.Nostr.OneToOne.{owner_of, same_text, get_pubkey_of, get_owner_of, clashes}

-- The contact that the FOREIGN KEY clause asks for is there, or the clause is not enforced.
abbrev pub IsAdmitted : String → Database → Type 0
IsAdmitted fp d = (d.foreign_keys && not (any_where (is_contact fp) d.contacts)) ≡ false

-- The key belongs to no other fingerprint.
abbrev pub IsFree : String → String → Database → Type 0
IsFree fp key d = (owner_of key d ≡ none) ⊎ (owner_of key d ≡ some fp)

other_text : (s t : String) → s ≢ t → (s == t) ≡ false
other_text s t ne = grind (arith, eq_iff s t, Bool-cases (s == t))

module _ (fp key context : String) where
  abbrev pub stored_in : Database → Database
  stored_in d = record d {
    nostr_identities =
        delete_where (clashes (nostr_row fp key context)) d.nostr_identities
        ++ nostr_row fp key context ∷ [];
  }

  store_unless_writes :
      (d : Database) (o : Option String)
      → (o ≡ none) ⊎ (o ≡ some fp)
      → IsAdmitted fp d
      → store_unless_taken fp key context o (quiet d) ≡ (ok tt, quiet (stored_in d))
  unfolding store_unless_taken statement insert_or_replace_nostr ◌>>=◌
  store_unless_writes d none f a = rw a
  store_unless_writes d (some x) (inl e) a = cc
  store_unless_writes d (some x) (inr e) a = rw ((eq_iff x fp).1 (cc), a)

  pub store_writes :
      (d : Database)
      → IsFree fp key d
      → IsAdmitted fp d
      → store_nostr_identity fp key context (quiet d) ≡ (ok tt, quiet (stored_in d))
  unfolding store_nostr_identity ◌>>=◌
  store_writes d f a = rw (get_owner_of key d) (store_unless_writes d (owner_of key d) f a)

  pub gone :
      (p : NostrRow → Bool) (d : Database)
      → ((x : NostrRow) → clashes (nostr_row fp key context) x ≡ false → p x ≡ false)
      → first_where p (delete_where (clashes (nostr_row fp key context)) d.nostr_identities) ≡ none
  gone p d k =
      first_where_of_All p _
        (All-mono _ _ _ k (All-deleted (clashes (nostr_row fp key context)) d.nostr_identities))

  abbrev row : NostrRow
  row = nostr_row fp key context

  own_fingerprint : first_where (has_fingerprint fp) (row ∷ []) ≡ some row
  own_fingerprint = rw (same_text fp)

  pub own_key : first_where (has_pubkey key) (row ∷ []) ≡ some row
  own_key = rw (same_text key)

  -- the stored key
  get-store_nostr_identity :
      (d : Database)
      → IsFree fp key d
      → IsAdmitted fp d
      → (get_nostr_pubkey fp (store_nostr_identity fp key context (quiet d)).1).0 ≡ ok (some key)
        × (get_fingerprint_by_nostr_pubkey key (store_nostr_identity fp key context (quiet d)).1).0
          ≡ ok (some fp)
  get-store_nostr_identity d f a = rw (store_writes d f a) (
    ap (λ o. o.0) (get_pubkey_of fp (stored_in d))
        ∙ ap (λ o. ok (map (λ r. r.nostr_pubkey) o))
            (first_where-append (has_fingerprint fp) _ _
                (gone (has_fingerprint fp) d (λ x h. ground arith))
              ∙ own_fingerprint),
    ap (λ o. o.0) (get_owner_of key (stored_in d))
        ∙ ap (λ o. ok (map (λ r. r.fingerprint) o))
            (first_where-append (has_pubkey key) _ _ (gone (has_pubkey key) d (λ x h. ground arith))
              ∙ own_key),
  )

  -- With an engine that refuses nothing, a key that another fingerprint has is refused, and nothing
  -- is written.
  store_nostr_identity-taken :
      (d : Database) (existing : String)
      → owner_of key d ≡ some existing
      → existing ≢ fp
      → store_nostr_identity fp key context (quiet d)
        ≡ (err (already_associated key existing), quiet d)
  unfolding store_nostr_identity store_unless_taken ◌>>=◌
  store_nostr_identity-taken d existing e ne = rw (get_owner_of key d, e, other_text existing fp ne)

  abbrev Free : List NostrRow → Type 0
  Free xs =
      (map (λ (r : NostrRow). r.fingerprint) (first_where (has_pubkey key) xs) ≡ none)
      ⊎ (map (λ (r : NostrRow). r.fingerprint) (first_where (has_pubkey key) xs) ≡ some fp)

  skipped :
      (x : NostrRow) (xs : List NostrRow)
      → has_pubkey key x ≡ false
      → first_where (has_pubkey key) (x ∷ xs) ≡ first_where (has_pubkey key) xs
  skipped x xs e = rw e

  own_first :
      (x : NostrRow) (xs : List NostrRow)
      → has_pubkey key x ≡ true
      → Free (x ∷ xs)
      → x.fingerprint ≡ fp
  own_first x xs e (inl f) = ground arith
  own_first x xs e (inr f) = ground arith

  own_rest :
      (x : NostrRow) (xs : List NostrRow) → has_pubkey key x ≡ false → Free (x ∷ xs) → Free xs
  own_rest x xs e (inl f) = inl (rw (sym (skipped x xs e)) f)
  own_rest x xs e (inr f) = inr (rw (sym (skipped x xs e)) f)

  own_row :
      (xs : List NostrRow)
      → Distinct (λ (r : NostrRow). r.nostr_pubkey) xs
      → Free xs
      → All (λ x. has_pubkey key x ≡ true → x.fingerprint ≡ fp) xs
  own_row [] d f = tt
  own_row (x ∷ xs) d f = elim (Bool-cases (has_pubkey key x)) [
    | inl e ↦ (
      λ h. own_first x xs e f,
      All-mono (λ y. x.nostr_pubkey ≢ y.nostr_pubkey)
          (λ y. has_pubkey key y ≡ true → y.fingerprint ≡ fp) xs
          (λ y ne h. ground (arith, eq_iff x.nostr_pubkey key, eq_iff y.nostr_pubkey key)) d.0,
    )
    | inr e ↦ (λ h. ground arith, own_row xs d.1 (own_rest x xs e f))
  ]

  other_row :
      (fp' : String) (x : NostrRow) → fp ≢ fp' → x.fingerprint ≡ fp → has_fingerprint fp' x ≡ false
  other_row fp' x ne e = rw e (other_text fp fp' ne)

  -- the key of another fingerprint
  get-store_nostr_identity_ne :
      (d : Database) (fp' : String)
      → Distinct (λ (r : NostrRow). r.nostr_pubkey) d.nostr_identities
      → IsFree fp key d
      → IsAdmitted fp d
      → fp ≢ fp'
      → (get_nostr_pubkey fp' (store_nostr_identity fp key context (quiet d)).1).0
        ≡ (get_nostr_pubkey fp' (quiet d)).0
  get-store_nostr_identity_ne d fp' h f a ne =
      rw (store_writes d f a, get_pubkey_of fp' (stored_in d), get_pubkey_of fp' d)
        (ap (λ o. ok (map (λ r. r.nostr_pubkey) o))
          (first_where-last_ne (has_fingerprint fp') _ _ (other_text fp fp' ne)
            ∙ first_where-delete_ne (has_fingerprint fp') _ d.nostr_identities (
                All-mono _ _ d.nostr_identities
                  (λ x k c. other_row fp' x ne (ground (arith, k, eq_iff x.fingerprint fp)))
                  (own_row d.nostr_identities h f))))

  -- With an engine that refuses nothing and distinct keys in the table: when a Nostr key that no
  -- other fingerprint has is stored for a fingerprint whose contact is listed, where the engine
  -- asks for it, the key is found for the fingerprint and the fingerprint for the key, and the
  -- key of every other fingerprint is what it was.
  pub get-store_nostr_identity_any :
      (d : Database) (fp' : String)
      → Distinct (λ (r : NostrRow). r.nostr_pubkey) d.nostr_identities
      → IsFree fp key d
      → IsAdmitted fp d
      → ((get_nostr_pubkey fp' (store_nostr_identity fp key context (quiet d)).1).0
          ≡ (if fp == fp' then ok (some key) else (get_nostr_pubkey fp' (quiet d)).0))
        × ((get_fingerprint_by_nostr_pubkey key (store_nostr_identity fp key context (quiet d)).1).0
            ≡ ok (some fp))
  get-store_nostr_identity_any d fp' h f a = (
    elim (Bool-cases (fp == fp')) [
      | inl e ↦ rw e (
          ap
            (λ (x : String).
              (get_nostr_pubkey x (store_nostr_identity fp key context (quiet d)).1).0)
            (sym ((eq_iff fp fp').0 e))
          ∙ (get-store_nostr_identity d f a).0)
      | inr e ↦ rw e (get-store_nostr_identity_ne d fp' h f a (ground (arith, eq_iff fp fp')))
    ],
    (get-store_nostr_identity d f a).1,
  )
