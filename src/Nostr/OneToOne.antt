-- ===== src/Nostr/OneToOne.antt =====
-- The two directions of the map between fingerprints and Nostr keys that
-- src/integrations/nostr/storage.rs keeps, and the tables that are one-to-one.
use lotl.Prelude.{
  string_eq, ◌≡◌, ◌≢◌, refl, eq_iff, String, Bool, true, false, not, ◌&&◌, ◌||◌, Option, none, some,
  ◌==◌, inl, inr, first_where, any_where, arith, Bool-cases, Option-cases,
}
use mathlib.Core.Option.{map}
use lotl.Prelude.Rows.{Distinct, Distinct-append_one, Distinct-delete, All-mono, All-deleted}
use lotl.Errors.{database, query_returned_no_rows}
use lotl.Exec.{Result, ok, err, ◌>>=◌}
use lotl.Exec.Keeps.{Keeps, Keeps-bind, Keeps-caught, keeps_rules}
use lotl.Sql.{Connection, statement, quiet, Keeps-statement}
use lotl.Database.{Database, NostrRow}
use lotl.Contacts.{is_contact}
use lotl.Nostr.{
  has_fingerprint, has_pubkey, select_nostr, insert_or_replace_nostr, found_row, get_nostr_pubkey,
  get_fingerprint_by_nostr_pubkey, store_unless_taken, store_nostr_identity,
}

-- The two directions of the map.
abbrev pub pubkey_of : String → Database → Option String
pubkey_of fp d =
    map (λ (r : NostrRow). r.nostr_pubkey) (first_where (has_fingerprint fp) d.nostr_identities)

abbrev pub owner_of : String → Database → Option String
owner_of key d =
    map (λ (r : NostrRow). r.fingerprint) (first_where (has_pubkey key) d.nostr_identities)

abbrev pub IsOneToOne : Database → Type 0
IsOneToOne d =
    Distinct (λ (r : NostrRow). r.fingerprint) d.nostr_identities
    × Distinct (λ (r : NostrRow). r.nostr_pubkey) d.nostr_identities

pub same_text : (s : String) → (s == s) ≡ true
same_text s = (eq_iff s s).1 refl

pub get_pubkey_of :
    (fp : String) (d : Database) → get_nostr_pubkey fp (quiet d) ≡ (ok (pubkey_of fp d), quiet d)
unfolding get_nostr_pubkey found_row statement select_nostr ◌>>=◌
get_pubkey_of fp d = elim (Option-cases (first_where (has_fingerprint fp) d.nostr_identities)) [
  | inl e ↦ rw e
  | inr (c, e) ↦ rw e
]

pub get_owner_of :
    (key : String) (d : Database)
    → get_fingerprint_by_nostr_pubkey key (quiet d) ≡ (ok (owner_of key d), quiet d)
unfolding get_fingerprint_by_nostr_pubkey found_row statement select_nostr ◌>>=◌
get_owner_of key d = elim (Option-cases (first_where (has_pubkey key) d.nostr_identities)) [
  | inl e ↦ rw e
  | inr (c, e) ↦ rw e
]

abbrev pub clashes : NostrRow → NostrRow → Bool
clashes r x = has_fingerprint r.fingerprint x || has_pubkey r.nostr_pubkey x

-- Invariant.
insert-IsOneToOne :
    (r : NostrRow) (d : Database) → IsOneToOne d → IsOneToOne (insert_or_replace_nostr r d).1
unfolding insert_or_replace_nostr
insert-IsOneToOne r d h =
    elim (Bool-cases (d.foreign_keys && not (any_where (is_contact r.fingerprint) d.contacts))) [
      | inl e ↦ rw e h
      | inr e ↦ rw e (
        Distinct-append_one _ _ r
            (All-mono (λ x. clashes r x ≡ false) (λ x. x.fingerprint ≢ r.fingerprint) _
              (λ x k. ground (arith, eq_iff x.fingerprint r.fingerprint))
              (All-deleted (clashes r) d.nostr_identities))
            (Distinct-delete _ (clashes r) d.nostr_identities h.0),
        Distinct-append_one _ _ r
            (All-mono (λ x. clashes r x ≡ false) (λ x. x.nostr_pubkey ≢ r.nostr_pubkey) _
              (λ x k. ground (arith, eq_iff x.nostr_pubkey r.nostr_pubkey))
              (All-deleted (clashes r) d.nostr_identities))
            (Distinct-delete _ (clashes r) d.nostr_identities h.1),
      )
    ]

insert-Keeps :
    (r : NostrRow)
    → Keeps
        (λ (c : Connection Database). IsOneToOne c.tables)
        (statement (insert_or_replace_nostr r))
insert-Keeps r = Keeps-statement _ (insert-IsOneToOne r)

select-Keeps :
    (p : NostrRow → Bool)
    → Keeps (λ (c : Connection Database). IsOneToOne c.tables) (statement (select_nostr p))
select-Keeps p = Keeps-statement _ (unfold select_nostr in λ d h. h)

found-Keeps :
    (column : NostrRow → String) (r : Result NostrRow)
    → Keeps (λ (c : Connection Database). IsOneToOne c.tables) (found_row column r)
unfolding found_row
found-Keeps column (ok r) = search keeps_rules
found-Keeps column (err (database query_returned_no_rows)) = search keeps_rules
found-Keeps column (err _) = search keeps_rules

store_unless-Keeps :
    (fp key context : String) (o : Option String)
    → Keeps (λ (c : Connection Database). IsOneToOne c.tables) (store_unless_taken fp key context o)
unfolding store_unless_taken
store_unless-Keeps fp key context none = insert-Keeps _
store_unless-Keeps fp key context (some existing) = search (keeps_rules, insert-Keeps)

-- From a one-to-one table, whatever the engine refuses, a store leaves a one-to-one table: no two
-- rows have one fingerprint, and no two have one public key.
pub store_nostr_identity-IsOneToOne :
    (fp key context : String) (c : Connection Database)
    → IsOneToOne c.tables
    → IsOneToOne (store_nostr_identity fp key context c).1.tables
unfolding store_nostr_identity get_fingerprint_by_nostr_pubkey
store_nostr_identity-IsOneToOne fp key context c h =
    (Keeps-bind _ _ (Keeps-bind _ _ (Keeps-caught _ (select-Keeps _)) (found-Keeps _))
        (store_unless-Keeps fp key context)).at
      c h
