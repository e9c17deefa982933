-- ===== src/Contacts/Book.antt =====
-- What adding and renaming contacts does to the contact book.
use lotl.Prelude.{
  string_eq, number_eq, ℕ, ◌≡◌, ◌≢◌, refl, sym, ap, ◌∙◌, String, true, false, Option, none, some,
  List, [], ◌∷◌, ◌++◌, ◌==◌, eq_iff, inl, inr, first_where, any_where, update_where, count_where,
  arith, Bool-cases, Option-cases, if◌then◌else◌,
}
use lotl.Prelude.Int.{ℤ, as_i64}
use lotl.Prelude.Lookup.{
  first_where-append, first_where-last_ne, first_where-update, first_where-update_ne,
}
use lotl.Errors.{contact_not_found, text}
use lotl.Exec.{Result, ok, err, ◌>>=◌}
use lotl.Sql.{statement, quiet}
use lotl.Types.{ContactInfo}
use lotl.Database.{Database}
use lotl.Contacts.{
  Hashing, generate_fingerprint, is_contact, select_contact, update_contacts, insert_contact,
  new_contact, refreshed, update_or_insert, add_contact, found_contact, lookup_contact,
  update_contact_alias,
}

-- The book as a map from fingerprints.
abbrev pub contact_of : String → Database → Option ContactInfo
contact_of fingerprint d = first_where (is_contact fingerprint) d.contacts

-- The contact that adding leaves, from what was there.
abbrev pub added : String → List ℕ → Option String → ℤ → Option ContactInfo → ContactInfo
added fingerprint key alias now none = new_contact fingerprint key alias now
added fingerprint key alias now (some c) = refreshed key alias now c

unlisted :
    (fp : String) (xs : List ContactInfo)
    → first_where (is_contact fp) xs ≡ none
    → any_where (is_contact fp) xs ≡ false
unlisted fp [] h = refl
unlisted fp (x ∷ xs) h = elim (Bool-cases (is_contact fp x)) [
  | inl e ↦ ground arith
  | inr e ↦ ground (arith, unlisted fp xs)
]

same_text : (s : String) → (s == s) ≡ true
same_text s = (eq_iff s s).1 refl

pub other :
    (fp fp' : String) (c : ContactInfo)
    → fp ≢ fp'
    → is_contact fp c ≡ true
    → is_contact fp' c ≡ false
other fp fp' c ne h = elim (Bool-cases (is_contact fp' c)) [
  | inl e ↦ grind (arith, eq_iff c.fingerprint fp, eq_iff c.fingerprint fp')
  | inr e ↦ e
]

pub lookup_of :
    (fp : String) (d : Database) → (lookup_contact fp (quiet d)).0 ≡ ok (contact_of fp d)
unfolding lookup_contact found_contact statement select_contact ◌>>=◌
lookup_of fp d = elim (Option-cases (contact_of fp d)) [ inl e ↦ rw e | inr (c, e) ↦ rw e ]

module _ (h : Hashing) (key : List ℕ) (alias : Option String) (salt prefix : String) where
  abbrev fingerprint : String
  fingerprint = generate_fingerprint h key salt prefix

  abbrev pub added_to : ℤ → Option ContactInfo → Database → Database
  added_to now none d = record d {
    contacts = d.contacts ++ new_contact fingerprint key alias now ∷ [];
  }
  added_to now (some c) d = record d {
    contacts = update_where (is_contact fingerprint) (refreshed key alias now) d.contacts;
  }

  pub add_contact_writes :
      (seconds : ℕ) (d : Database)
      → add_contact h (inr seconds) key alias salt prefix (quiet d)
        ≡ (ok fingerprint, quiet (added_to (as_i64 seconds) (contact_of fingerprint d) d))
  unfolding add_contact update_or_insert statement select_contact update_contacts insert_contact
      ◌>>=◌
  add_contact_writes seconds d = elim (Option-cases (contact_of fingerprint d)) [
    | inl e ↦ rw (e, unlisted fingerprint d.contacts e)
    | inr (c, e) ↦ rw e
  ]

  pub found_after :
      (now : ℤ) (d : Database)
      → contact_of fingerprint (added_to now (contact_of fingerprint d) d)
        ≡ some (added fingerprint key alias now (contact_of fingerprint d))
  found_after now d = elim (Option-cases (contact_of fingerprint d)) [
    | inl e ↦
        rw e
          (first_where-append (is_contact fingerprint) d.contacts _ e ∙ rw (same_text fingerprint))
    | inr (c, e) ↦ rw e (
        first_where-update (is_contact fingerprint) (refreshed key alias now) d.contacts (λ x. refl)
        ∙ (rw e))
  ]

  pub found_after_ne :
      (now : ℤ) (fp : String) (d : Database)
      → fingerprint ≢ fp
      → contact_of fp (added_to now (contact_of fingerprint d) d) ≡ contact_of fp d
  found_after_ne now fp d ne = elim (Option-cases (contact_of fingerprint d)) [
    | inl e ↦ rw e (
        first_where-last_ne (is_contact fp) d.contacts _
          (other fingerprint fp (new_contact fingerprint key alias now) ne (same_text fingerprint)))
    | inr (c, e) ↦ rw e (
        first_where-update_ne (is_contact fp) (is_contact fingerprint) (refreshed key alias now)
          d.contacts (λ x. other fingerprint fp x ne)
          (λ x. other fingerprint fp (refreshed key alias now x) ne))
  ]

  -- the contact that was added
  lookup_contact-add_contact :
      (seconds : ℕ) (d : Database)
      → (lookup_contact fingerprint
          (add_contact h (inr seconds) key alias salt prefix (quiet d)).1).0
        ≡ ok (some (added fingerprint key alias (as_i64 seconds) (contact_of fingerprint d)))
  lookup_contact-add_contact seconds d = rw (add_contact_writes seconds d) (
      lookup_of fingerprint (added_to (as_i64 seconds) (contact_of fingerprint d) d)
      ∙ ap ok (found_after (as_i64 seconds) d))

  -- any other fingerprint
  lookup_contact-add_contact_ne :
      (seconds : ℕ) (fp : String) (d : Database)
      → fingerprint ≢ fp
      → (lookup_contact fp (add_contact h (inr seconds) key alias salt prefix (quiet d)).1).0
        ≡ (lookup_contact fp (quiet d)).0
  lookup_contact-add_contact_ne seconds fp d ne = rw (add_contact_writes seconds d) (
      lookup_of fp (added_to (as_i64 seconds) (contact_of fingerprint d) d)
      ∙ ap ok (found_after_ne (as_i64 seconds) fp d ne)
      ∙ sym (lookup_of fp d))

  -- With an engine that refuses nothing and a clock past 1970, a contact that was added is found
  -- under its fingerprint with the given key and alias, updated now, and with the first sighting that
  -- it had when it was there already, else now; the look-up of any other fingerprint gives after the
  -- addition what it gave before.
  lookup_contact-add_contact_any :
      (seconds : ℕ) (fp : String) (d : Database)
      → (lookup_contact fp (add_contact h (inr seconds) key alias salt prefix (quiet d)).1).0 ≡ (
          if fingerprint == fp
          then ok (some (added fingerprint key alias (as_i64 seconds) (contact_of fingerprint d)))
          else (lookup_contact fp (quiet d)).0)
  lookup_contact-add_contact_any seconds fp d = elim (Bool-cases (fingerprint == fp)) [
    | inl e ↦ rw e (
        ap
          (λ (x : String).
            (lookup_contact x (add_contact h (inr seconds) key alias salt prefix (quiet d)).1).0)
          (sym ((eq_iff fingerprint fp).0 e))
        ∙ lookup_contact-add_contact seconds d)
    | inr e ↦
        rw e (lookup_contact-add_contact_ne seconds fp d (ground (arith, eq_iff fingerprint fp)))
  ]

listed_count :
    (fp : String) (xs : List ContactInfo) (c : ContactInfo)
    → first_where (is_contact fp) xs ≡ some c
    → (count_where (is_contact fp) xs == 0) ≡ false
listed_count fp [] c h = cc
listed_count fp (x ∷ xs) c h = elim (Bool-cases (is_contact fp x)) [
  | inl e ↦ ground arith
  | inr e ↦ ground (arith, listed_count fp xs c)
]

-- a listed contact
lookup_contact-update_contact_alias :
    (seconds : ℕ) (fp : String) (alias : Option String) (d : Database) (c : ContactInfo)
    → contact_of fp d ≡ some c
    → (update_contact_alias (inr seconds) fp alias (quiet d)).0 ≡ ok tt
      × (lookup_contact fp (update_contact_alias (inr seconds) fp alias (quiet d)).1).0
        ≡ ok (some (record c { user_alias = alias; last_updated = as_i64 seconds }))
unfolding update_contact_alias update_contacts statement ◌>>=◌
lookup_contact-update_contact_alias seconds fp alias d c e = rw (listed_count fp d.contacts c e) (
  refl,
  lookup_of fp _ ∙ ap ok (first_where-update (is_contact fp) _ d.contacts (λ x. refl) ∙ (rw e)),
)

unlisted_count :
    (fp : String) (xs : List ContactInfo)
    → first_where (is_contact fp) xs ≡ none
    → count_where (is_contact fp) xs ≡ 0
unlisted_count fp [] h = refl
unlisted_count fp (x ∷ xs) h = elim (Bool-cases (is_contact fp x)) [
  | inl e ↦ ground arith
  | inr e ↦ ground (arith, unlisted_count fp xs)
]

-- an unlisted contact
update_contact_alias-unlisted :
    (seconds : ℕ) (fp : String) (alias : Option String) (d : Database)
    → contact_of fp d ≡ none
    → (update_contact_alias (inr seconds) fp alias (quiet d)).0 ≡ err (contact_not_found (text fp))
unfolding update_contact_alias update_contacts statement ◌>>=◌
update_contact_alias-unlisted seconds fp alias d e = rw (unlisted_count fp d.contacts e)

unlisted_after :
    (seconds : ℕ) (fp : String) (alias : Option String) (d : Database)
    → contact_of fp d ≡ none
    → (lookup_contact fp (update_contact_alias (inr seconds) fp alias (quiet d)).1).0 ≡ ok none
unfolding update_contact_alias update_contacts statement ◌>>=◌
unlisted_after seconds fp alias d e =
    rw (unlisted_count fp d.contacts e) (
      lookup_of fp _ ∙ ap ok (first_where-update (is_contact fp) _ d.contacts (λ x. refl) ∙ (rw e)))

-- What renaming returns, from what was found.
abbrev pub renaming : String → Option ContactInfo → Result (Unit {0})
renaming fp none = err (contact_not_found (text fp))
renaming fp (some c) = ok tt

abbrev pub renamed : Option String → ℤ → Option ContactInfo → Option ContactInfo
renamed alias now none = none
renamed alias now (some c) = some (record c { user_alias = alias; last_updated = now })

-- With an engine that refuses nothing and a clock past 1970: renaming succeeds if the contact is
-- listed, and fails as not found if it is not; the contact is then found, if it was listed, with
-- the new alias, updated now, and all else as it was.
pub lookup_contact-update_contact_alias_any :
    (seconds : ℕ) (fp : String) (alias : Option String) (d : Database)
    → ((update_contact_alias (inr seconds) fp alias (quiet d)).0 ≡ renaming fp (contact_of fp d))
      × ((lookup_contact fp (update_contact_alias (inr seconds) fp alias (quiet d)).1).0
          ≡ ok (renamed alias (as_i64 seconds) (contact_of fp d)))
lookup_contact-update_contact_alias_any seconds fp alias d = elim (Option-cases (contact_of fp d)) [
  | inl e ↦
      rw e (update_contact_alias-unlisted seconds fp alias d e, unlisted_after seconds fp alias d e)
  | inr (c, e) ↦ rw e (lookup_contact-update_contact_alias seconds fp alias d c e)
]
