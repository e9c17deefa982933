-- ===== src/Nostr.antt =====
-- The map between fingerprints and Nostr public keys: src/integrations/nostr/storage.rs.
pub mod Registry
pub mod Refines
pub mod OneToOne
pub mod RoundTrip
pub mod Derivation
use lotl.Prelude.{
  string_eq, String, Bool, not, ◌&&◌, ◌||◌, Option, none, some, List, [], ◌∷◌, ◌++◌, ◌==◌,
  if◌then◌else◌, first_where, any_where, delete_where,
}
use lotl.Errors.{LotlError, storage, database, query_returned_no_rows, with_texts, joined, text}
use lotl.Exec.{Result, ok, err, pure, raise, caught, ◌>>=◌, ◌>>◌}
use lotl.Sql.{statement, create}
use lotl.Database.{Database, NostrRow, Db, one_row, constraint_failed}
use lotl.Contacts.{is_contact}

-- The table and its index.
unfoldable pub init_nostr_tables : Db (Unit {0})
init_nostr_tables = do create; create

abbrev pub has_fingerprint : String → NostrRow → Bool
has_fingerprint fingerprint r = r.fingerprint == fingerprint

abbrev pub has_pubkey : String → NostrRow → Bool
has_pubkey nostr_pubkey r = r.nostr_pubkey == nostr_pubkey

-- SELECT ... FROM nostr_identities WHERE ...
unfoldable pub select_nostr : (NostrRow → Bool) → Database → Result NostrRow × Database
select_nostr p d = (one_row (first_where p d.nostr_identities), d)

-- INSERT OR REPLACE: the rows that the PRIMARY KEY or the UNIQUE clause would refuse make way, and
-- the FOREIGN KEY clause, if enforced, asks for the contact.
unfoldable pub insert_or_replace_nostr : NostrRow → Database → Result (Unit {0}) × Database
insert_or_replace_nostr r d =
    if d.foreign_keys && not (any_where (is_contact r.fingerprint) d.contacts)
    then (constraint_failed, d)
    else (
      ok tt,
      record d {
        nostr_identities =
            delete_where (λ x. has_fingerprint r.fingerprint x || has_pubkey r.nostr_pubkey x)
              d.nostr_identities
            ++ r ∷ [];
      },
    )

-- The match on the query's result.
unfoldable pub found_row : (NostrRow → String) → Result NostrRow → Db (Option String)
found_row column (ok r) = pure (some (column r))
found_row column (err (database query_returned_no_rows)) = pure none
found_row column (err e) = raise e

unfoldable pub get_nostr_pubkey : String → Db (Option String)
unfolding found_row
get_nostr_pubkey fingerprint = do
  result ← caught (statement (select_nostr (has_fingerprint fingerprint)))
  found_row (λ r. r.nostr_pubkey) result

unfoldable pub get_fingerprint_by_nostr_pubkey : String → Db (Option String)
unfolding found_row
get_fingerprint_by_nostr_pubkey nostr_pubkey = do
  result ← caught (statement (select_nostr (has_pubkey nostr_pubkey)))
  found_row (λ r. r.fingerprint) result

abbrev pub already_associated : String → String → LotlError
already_associated nostr_pubkey existing = storage (
    joined (text "Nostr pubkey ")
      (with_texts nostr_pubkey " is already associated with fingerprint " existing))

abbrev pub nostr_row : String → String → String → NostrRow
nostr_row fingerprint nostr_pubkey derivation_context = record {
  fingerprint = fingerprint;
  nostr_pubkey = nostr_pubkey;
  derivation_context = derivation_context;
}

-- The rest of `store_nostr_identity`, from the fingerprint that has the key.
unfoldable pub store_unless_taken : String → String → String → Option String → Db (Unit {0})
store_unless_taken fingerprint nostr_pubkey derivation_context none =
    statement (insert_or_replace_nostr (nostr_row fingerprint nostr_pubkey derivation_context))
store_unless_taken fingerprint nostr_pubkey derivation_context (some existing) =
    if existing == fingerprint
    then statement (insert_or_replace_nostr (nostr_row fingerprint nostr_pubkey derivation_context))
    else raise (already_associated nostr_pubkey existing)

unfoldable pub store_nostr_identity : String → String → String → Db (Unit {0})
unfolding get_fingerprint_by_nostr_pubkey store_unless_taken
store_nostr_identity fingerprint nostr_pubkey derivation_context = do
  existing ← get_fingerprint_by_nostr_pubkey nostr_pubkey
  store_unless_taken fingerprint nostr_pubkey derivation_context existing
