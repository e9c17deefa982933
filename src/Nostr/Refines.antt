-- ===== src/Nostr/Refines.antt =====
-- The stores of src/integrations/nostr/storage.rs are steps of the registry, with an engine that
-- refuses nothing but a stranger's key.
use lotl.Prelude.{
  string_eq, ◌≡◌, ◌≢◌, refl, sym, ap, ◌∙◌, eq_iff, String, true, false, not, ◌&&◌, Option, none,
  some, List, [], ◌∷◌, ◌==◌, inl, inr, first_where, any_where, delete_where, arith, Bool-cases,
  Option-cases, if◌then◌else◌,
}
use mathlib.Core.Option.{map}
use lotl.Prelude.Rows.{Distinct, All-mono, All-delete}
use lotl.Prelude.Lookup.{first_where-append, first_where-last_ne, first_where_of_All}
use lotl.Exec.{Result, ok, ◌>>=◌}
use lotl.Sql.{Connection, statement, quiet}
use lotl.Database.{Database, NostrRow}
use lotl.Contacts.{is_contact}
use lotl.Nostr.{
  has_fingerprint, has_pubkey, insert_or_replace_nostr, get_nostr_pubkey,
  get_fingerprint_by_nostr_pubkey, nostr_row, store_unless_taken, store_nostr_identity,
}
use lotl.Nostr.OneToOne.{
  pubkey_of, owner_of, IsOneToOne, get_pubkey_of, get_owner_of, clashes,
  store_nostr_identity-IsOneToOne,
}
use lotl.Nostr.RoundTrip.{
  IsAdmitted, IsFree, stored_in, store_writes, gone, own_key, get-store_nostr_identity_any,
}
use lotl.Nostr.Registry.{
  Registry, Store, dropped, set, is_free, step, steps, registry, listed_in, serve, same_registry,
}

module _ (fp key context : String) where
  abbrev row : NostrRow
  row = nostr_row fp key context

  owner_left :
      (key' : String) (xs : List NostrRow)
      → key ≢ key'
      → Distinct (λ (r : NostrRow). r.nostr_pubkey) xs
      → map
          (λ (r : NostrRow). r.fingerprint)
          (first_where (has_pubkey key') (delete_where (clashes row) xs))
        ≡ dropped fp (map (λ (r : NostrRow). r.fingerprint) (first_where (has_pubkey key') xs))
  owner_left key' [] ne h = refl
  owner_left key' (x ∷ xs) ne h = elim (Bool-cases (has_pubkey key' x)) [
    | inl e ↦ elim (Bool-cases (has_fingerprint fp x)) [
      | inl k ↦
          let none_left = first_where_of_All (has_pubkey key') (delete_where (clashes row) xs) (
            All-delete (λ y. has_pubkey key' y ≡ false) (clashes row) xs
              (All-mono (λ y. x.nostr_pubkey ≢ y.nostr_pubkey) (λ y. has_pubkey key' y ≡ false) xs
                (λ y other.
                  ground (arith, other, e, eq_iff x.nostr_pubkey key', eq_iff y.nostr_pubkey key'))
                h.0)) in
          rw (e, k, none_left) refl
      | inr k ↦
          let own : has_pubkey key x ≡ false =
            ground (arith, ne, e, eq_iff x.nostr_pubkey key', eq_iff x.nostr_pubkey key) in
          rw (e, k, own, e) refl
    ]
    | inr e ↦ elim (Bool-cases (clashes row x)) [
      | inl k ↦ rw (e, k) (owner_left key' xs ne h.1)
      | inr k ↦ rw (e, k, e) (owner_left key' xs ne h.1)
    ]
  ]

  module _ (d : Database) (h : IsOneToOne d) where
    key_set :
        (fp' : String)
        → IsFree fp key d
        → IsAdmitted fp d
        → pubkey_of fp' (stored_in fp key context d)
          ≡ (if fp == fp' then some key else pubkey_of fp' d)
    key_set fp' f a =
        let stored = stored_in fp key context d in
        let e : ok (pubkey_of fp' stored)
            ≡ (if fp == fp' then ok (some key) else ok (pubkey_of fp' d)) =
          sym (ap (λ o. o.0) (get_pubkey_of fp' stored))
          ∙ ap (λ (o : Result Unit × Connection Database). (get_nostr_pubkey fp' o.1).0)
              (sym (store_writes fp key context d f a))
          ∙ (get-store_nostr_identity_any fp key context d fp' h.1 f a).0
          ∙ ap (λ r. if fp == fp' then ok (some key) else r)
              (ap (λ o. o.0) (get_pubkey_of fp' d)) in
        elim (Bool-cases (fp == fp')) [ inl k ↦ rw k (cc) | inr k ↦ rw k (cc) ]

    owner_set :
        (key' : String)
        → owner_of key' (stored_in fp key context d)
          ≡ (if key == key' then some fp else dropped fp (owner_of key' d))
    owner_set key' = elim (Bool-cases (key == key')) [
      | inl k ↦ rw k (
          ap (λ x. owner_of x (stored_in fp key context d)) (sym ((eq_iff key key').0 k))
          ∙ ap (map (λ (r : NostrRow). r.fingerprint)) (
              first_where-append (has_pubkey key) _ _
                (gone fp key context (has_pubkey key) d (λ x c. ground arith))
              ∙ own_key fp key context))
      | inr k ↦ rw k (
          ap (map (λ (r : NostrRow). r.fingerprint)) (first_where-last_ne (has_pubkey key') _ row k)
          ∙ owner_left key' d.nostr_identities (ground (arith, k, eq_iff key key')) h.1)
    ]

    record Refines : Type 0 where
      left : Database
      ends : (store_nostr_identity fp key context (quiet d)).1 ≡ quiet left
      shows : registry left ≡ step (listed_in d) (registry d) (fp, key, context)
      listed : listed_in left ≡ listed_in d

    stored-Refines :
        IsFree fp key d → is_free fp (owner_of key d) ≡ true → listed_in d fp ≡ true → Refines
    stored-Refines f free listed =
        let a : IsAdmitted fp d = ground arith in
        record {
          left = stored_in fp key context d;
          ends =
              ap (λ (o : Result Unit × Connection Database). o.1)
                (store_writes fp key context d f a);
          shows =
              rw (free, listed)
                (same_registry (registry (stored_in fp key context d)) (set fp key (registry d))
                  (λ fp'. key_set fp' f a) owner_set);
          listed = refl;
        }

    stranger-Refines :
        (o : Option String)
        → owner_of key d ≡ o
        → is_free fp o ≡ true
        → listed_in d fp ≡ false
        → Refines
    unfolding store_nostr_identity store_unless_taken insert_or_replace_nostr statement ◌>>=◌
    stranger-Refines none e free listed =
        let a : (d.foreign_keys && not (any_where (is_contact fp) d.contacts)) ≡ true =
          ground arith in
        record {
          left = d;
          ends = rw (get_owner_of key d, e, a) refl;
          shows = rw (e, listed) refl;
          listed = refl;
        }
    stranger-Refines (some owner) e free listed =
        let a : (d.foreign_keys && not (any_where (is_contact fp) d.contacts)) ≡ true =
          ground arith in
        record {
          left = d;
          ends = rw (get_owner_of key d, e, free, a) refl;
          shows = rw (e, free, listed) refl;
          listed = refl;
        }

    taken-Refines : (owner : String) → owner_of key d ≡ some owner → (owner == fp) ≡ false → Refines
    unfolding store_nostr_identity store_unless_taken ◌>>=◌
    taken-Refines owner e other = record {
      left = d;
      ends = rw (get_owner_of key d, e, other) refl;
      shows = rw (e, other) refl;
      listed = refl;
    }

    free-Refines :
        (o : Option String) → owner_of key d ≡ o → is_free fp o ≡ true → IsFree fp key d → Refines
    free-Refines o e free f = elim (Bool-cases (listed_in d fp)) [
      | inl k ↦ stored-Refines f (rw e free) k
      | inr k ↦ stranger-Refines o e free k
    ]

    store-Refines : Refines
    store-Refines = elim (Option-cases (owner_of key d)) [
      | inl e ↦ free-Refines none e refl (inl e)
      | inr (owner, e) ↦ elim (Bool-cases (owner == fp)) [
        | inl k ↦ free-Refines (some owner) e k (inr (e ∙ ap some ((eq_iff owner fp).0 k)))
        | inr k ↦ taken-Refines owner e k
      ]
    ]

-- From a one-to-one table, with an engine that refuses nothing but the keys of contacts that are
-- not listed: after any sequence of stores, whatever each returns, the key of a fingerprint and
-- the fingerprint of a key are read as the steps of the stores leave them in the registry of the
-- table: a key that another fingerprint has is not taken from it, and a fingerprint gives up its
-- key for a new one.
pub get-serve :
    (stores : List Store) (d : Database) (fp key : String)
    → IsOneToOne d
    → ((get_nostr_pubkey fp (serve (quiet d) stores)).0
        ≡ ok ((steps (listed_in d) (registry d) stores).keys fp))
      × ((get_fingerprint_by_nostr_pubkey key (serve (quiet d) stores)).0
          ≡ ok ((steps (listed_in d) (registry d) stores).owners key))
get-serve [] d fp key h = (ap (λ o. o.0) (get_pubkey_of fp d), ap (λ o. o.0) (get_owner_of key d))
get-serve ((fp', key', context) ∷ rest) d fp key h =
    let r = store-Refines fp' key' context d h in
    let one : IsOneToOne r.left =
      rw (sym (ap (λ (c : Connection Database). c.tables) r.ends))
        (store_nostr_identity-IsOneToOne fp' key' context (quiet d) h) in
    let later = get-serve rest r.left fp key one in
    let after = λ (x : Registry). steps (listed_in d) x rest in
    (
      ap (λ c. (get_nostr_pubkey fp (serve c rest)).0) r.ends
          ∙ later.0
          ∙ ap (λ l. ok ((steps l (registry r.left) rest).keys fp)) r.listed
          ∙ ap (λ x. ok ((after x).keys fp)) r.shows,
      ap (λ c. (get_fingerprint_by_nostr_pubkey key (serve c rest)).0) r.ends
          ∙ later.1
          ∙ ap (λ l. ok ((steps l (registry r.left) rest).owners key)) r.listed
          ∙ ap (λ x. ok ((after x).owners key)) r.shows,
    )
