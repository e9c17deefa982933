-- ===== src/Contacts.antt =====
-- The contact book: src/contact_manager.rs. SHA-256, the hex encoding and the bytes of a string are
-- parameters, and so is the clock.
pub mod Refines
pub mod Book
pub mod Calls
use lotl.Prelude.{
  string_eq, number_eq, ℕ, String, Bool, true, false, Option, none, some, List, [], ◌∷◌, ◌++◌, ◌==◌,
  ◌⊎◌, inl, inr, concat, if◌then◌else◌, first_where, any_where, update_where, count_where, map,
}
use lotl.Prelude.Int.{ℤ, as_i64}
use lotl.Errors.{
  LotlError, crypto, contact_not_found, database, query_returned_no_rows, text, with_texts,
}
use lotl.Exec.{Result, ok, err, pure, raise, lift, caught, ◌>>=◌, ◌>>◌}
use lotl.Sql.{statement, create}
use lotl.Types.{ContactInfo}
use lotl.Database.{Database, Db, one_row, constraint_failed}

-- The crates `sha2` and `hex`, and `str::as_bytes`.
pub record Hashing : Type 0 where
  pub sha256 : List ℕ → List ℕ
  pub hex : List ℕ → String
  pub as_bytes : String → List ℕ

-- The table and its index.
unfoldable pub init_contacts_table : Db (Unit {0})
init_contacts_table = do create; create

abbrev pub generate_fingerprint : Hashing → List ℕ → String → String → String
generate_fingerprint h identity_key salt prefix =
    concat prefix (h.hex (h.sha256 (identity_key ++ h.as_bytes salt)))

-- `SystemTime::now().duration_since(UNIX_EPOCH)`: the seconds, or the error's text.
abbrev pub Clock : Type 0
Clock = String ⊎ ℕ

abbrev pub unix_time : Clock → Result ℤ
unix_time (inl e) = err (crypto (with_texts "System time error: " e ""))
unix_time (inr seconds) = ok (as_i64 seconds)

abbrev pub is_contact : String → ContactInfo → Bool
is_contact fingerprint c = c.fingerprint == fingerprint

-- SELECT ... FROM contacts WHERE fingerprint = ?1
unfoldable pub select_contact : String → Database → Result ContactInfo × Database
select_contact fingerprint d = (one_row (first_where (is_contact fingerprint) d.contacts), d)

-- UPDATE contacts SET ... WHERE fingerprint = ?1, with the number of rows
unfoldable pub update_contacts :
    String → (ContactInfo → ContactInfo) → Database → Result ℕ × Database
update_contacts fingerprint f d = (
  ok (count_where (is_contact fingerprint) d.contacts),
  record d { contacts = update_where (is_contact fingerprint) f d.contacts },
)

-- INSERT INTO contacts (...) VALUES (...)
unfoldable pub insert_contact : ContactInfo → Database → Result ℕ × Database
insert_contact c d =
    if any_where (is_contact c.fingerprint) d.contacts
    then (constraint_failed, d)
    else (ok 1, record d { contacts = d.contacts ++ c ∷ [] })

abbrev pub new_contact : String → List ℕ → Option String → ℤ → ContactInfo
new_contact fingerprint identity_key alias now = record {
  fingerprint = fingerprint;
  signal_identity_key = identity_key;
  user_alias = alias;
  first_seen = now;
  last_updated = now;
}

abbrev pub refreshed : List ℕ → Option String → ℤ → ContactInfo → ContactInfo
refreshed identity_key alias now c = record c {
  signal_identity_key = identity_key;
  user_alias = alias;
  last_updated = now;
}

-- `existing` is `.ok()` of the query: any failure passes for "no such contact".
unfoldable pub update_or_insert :
    String → List ℕ → Option String → ℤ → Result ContactInfo → Db String
update_or_insert fingerprint identity_key alias now (ok existing) = do
  statement (update_contacts fingerprint (refreshed identity_key alias now))
  pure fingerprint
update_or_insert fingerprint identity_key alias now (err e) = do
  statement (insert_contact (new_contact fingerprint identity_key alias now))
  pure fingerprint

unfoldable pub add_contact : Hashing → Clock → List ℕ → Option String → String → String → Db String
unfolding update_or_insert
add_contact h clock identity_key alias salt prefix = do
  now ← lift (unix_time clock)
  existing ← caught (statement (select_contact (generate_fingerprint h identity_key salt prefix)))
  update_or_insert (generate_fingerprint h identity_key salt prefix) identity_key alias now existing

unfoldable pub found_contact : Result ContactInfo → Db (Option ContactInfo)
found_contact (ok contact) = pure (some contact)
found_contact (err (database query_returned_no_rows)) = pure none
found_contact (err e) = raise e

unfoldable pub lookup_contact : String → Db (Option ContactInfo)
unfolding found_contact
lookup_contact fingerprint = do
  result ← caught (statement (select_contact fingerprint))
  found_contact result

-- `by_last_updated_desc` is the engine's ORDER BY last_updated DESC.
unfoldable pub list_contacts : (List ContactInfo → List ContactInfo) → Db (List ContactInfo)
list_contacts by_last_updated_desc = statement (λ d. (ok (by_last_updated_desc d.contacts), d))

unfoldable pub update_contact_alias : Clock → String → Option String → Db (Unit {0})
update_contact_alias clock fingerprint alias = do
  now ← lift (unix_time clock)
  rows_affected ←
      statement
        (update_contacts fingerprint (λ c. record c { user_alias = alias; last_updated = now }))
  if rows_affected == 0 then raise (contact_not_found (text fingerprint)) else pure tt
