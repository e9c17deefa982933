-- ===== src/Contacts/Refines.antt =====
-- The calls of src/contact_manager.rs as steps of an address book, a map from fingerprints to
-- contacts, with an engine that refuses nothing.
use lotl.Prelude.{
  string_eq, number_eq, ℕ, ◌≡◌, ◌≢◌, refl, sym, ap, ◌∙◌, String, Option, List, [], ◌∷◌, ◌==◌,
  eq_iff, inl, inr, update_where, arith, Bool-cases, if◌then◌else◌, count_where,
}
use lotl.Prelude.Int.{ℤ, as_i64}
use mathlib.Core.Option.{map, some, none}
use lotl.Prelude.Lookup.{first_where-update, first_where-update_ne}
use lotl.Exec.{Result, ok, ◌>>=◌}
use lotl.Sql.{Connection, statement, quiet}
use lotl.Types.{ContactInfo}
use lotl.Database.{Database}
use lotl.Contacts.{
  Hashing, Clock, generate_fingerprint, is_contact, update_contacts, add_contact, lookup_contact,
  update_contact_alias,
}
use lotl.Contacts.Calls.{ContactCall, add, rename, after, serve}
use lotl.Contacts.Book.{
  contact_of, added, renamed, other, lookup_of, added_to, add_contact_writes, found_after,
  found_after_ne,
}

abbrev pub Book : Type 0
Book = String → Option ContactInfo

abbrev pub put : String → Option ContactInfo → Book → Book
put fp c b fp' = if fp == fp' then c else b fp'

module _ (h : Hashing) where
  -- A clock before 1970 makes a call fail at once.
  abbrev pub step : Book → Clock × ContactCall → Book
  step b (inl e, call) = b
  step b (inr seconds, add key alias salt prefix) =
      let fp = generate_fingerprint h key salt prefix in
      put fp (some (added fp key alias (as_i64 seconds) (b fp))) b
  step b (inr seconds, rename fp alias) = put fp (renamed alias (as_i64 seconds) (b fp)) b

  abbrev pub steps : Book → List (Clock × ContactCall) → Book
  steps b [] = b
  steps b (call ∷ rest) = steps (step b call) rest

abbrev pub book : Database → Book
book d fp = contact_of fp d

-- A call ends with a quiet engine and tables that stand for the step of the book.
record Refines (h : Hashing) (d : Database) (call : Clock × ContactCall) : Type 0 where
  left : Database
  ends : after h call (quiet d) ≡ quiet left
  shows : book left ≡ step h (book d) call

one_contact :
    (fp : String) (d d' : Database) (c : Option ContactInfo)
    → contact_of fp d' ≡ c
    → ((fp' : String) → fp ≢ fp' → contact_of fp' d' ≡ contact_of fp' d)
    → book d' ≡ put fp c (book d)
one_contact fp d d' c own others = λ i fp'. pointwise fp' i
  where
    pointwise : (fp' : String) → contact_of fp' d' ≡ put fp c (book d) fp'
    pointwise fp' = elim (Bool-cases (fp == fp')) [
      | inl e ↦ rw e (ap (λ x. contact_of x d') (sym ((eq_iff fp fp').0 e)) ∙ own)
      | inr e ↦ rw e (others fp' (ground (arith, eq_iff fp fp')))
    ]

abbrev with_alias : String → Option String → ℤ → Database → Database
with_alias fp alias now d = record d {
  contacts =
      update_where (is_contact fp) (λ c. record c { user_alias = alias; last_updated = now })
        d.contacts;
}

module _ (h : Hashing) (d : Database) where
  add-Refines :
      (seconds : ℕ) (key : List ℕ) (alias : Option String) (salt prefix : String)
      → Refines h d (inr seconds, add key alias salt prefix)
  unfolding after
  add-Refines seconds key alias salt prefix =
      let fp = generate_fingerprint h key salt prefix in
      let now = as_i64 seconds in
      let left = added_to h key alias salt prefix now (contact_of fp d) d in
      record {
        left = left;
        ends =
            ap (λ (p : Result String × Connection Database). p.1)
              (add_contact_writes h key alias salt prefix seconds d);
        shows =
            one_contact fp d left _ (found_after h key alias salt prefix now d)
              (λ fp' ne. found_after_ne h key alias salt prefix now fp' d ne);
      }

  rename_ends :
      (seconds : ℕ) (fp : String) (alias : Option String)
      → (update_contact_alias (inr seconds) fp alias (quiet d)).1
        ≡ quiet (with_alias fp alias (as_i64 seconds) d)
  unfolding update_contact_alias update_contacts statement ◌>>=◌
  rename_ends seconds fp alias = elim (Bool-cases (count_where (is_contact fp) d.contacts == 0)) [
    | inl e ↦ rw e refl
    | inr e ↦ rw e refl
  ]

  renamed_own :
      (now : ℤ) (fp : String) (alias : Option String)
      → contact_of fp (with_alias fp alias now d) ≡ renamed alias now (contact_of fp d)
  renamed_own now fp alias =
      first_where-update (is_contact fp)
        (λ (c : ContactInfo). record c { user_alias = alias; last_updated = now }) d.contacts
        (λ x. refl)
      ∙ same (contact_of fp d)
    where
      same :
          (o : Option ContactInfo)
          → map (λ (c : ContactInfo). record c { user_alias = alias; last_updated = now }) o
            ≡ renamed alias now o
      same none = refl
      same (some c) = refl

  rename-Refines :
      (seconds : ℕ) (fp : String) (alias : Option String)
      → Refines h d (inr seconds, rename fp alias)
  unfolding after
  rename-Refines seconds fp alias =
      let now = as_i64 seconds in
      record {
        left = with_alias fp alias now d;
        ends = rename_ends seconds fp alias;
        shows = one_contact fp d (with_alias fp alias now d) _ (renamed_own now fp alias) (λ fp' ne.
            first_where-update_ne (is_contact fp') (is_contact fp) _ d.contacts
              (λ x. other fp fp' x ne)
              (λ x. other fp fp' (record x { user_alias = alias; last_updated = now }) ne));
      }

  call-Refines : (call : Clock × ContactCall) → Refines h d call
  unfolding after add_contact update_contact_alias ◌>>=◌
  call-Refines (inl e, add key alias salt prefix) = record { left = d; ends = refl; shows = refl }
  call-Refines (inl e, rename fp alias) = record { left = d; ends = refl; shows = refl }
  call-Refines (inr seconds, add key alias salt prefix) = add-Refines seconds key alias salt prefix
  call-Refines (inr seconds, rename fp alias) = rename-Refines seconds fp alias

-- With an engine that refuses nothing, after any sequence of calls that add and rename contacts,
-- with whatever the clock shows, the look-up of a fingerprint gives the contact that the steps of
-- the calls leave in the book of the tables: a contact that is added again keeps its first
-- sighting and takes the new key and alias, one that is renamed takes the alias, both with the
-- time of the call, and a call under a clock before 1970, as the renaming of a stranger, changes
-- nothing.
pub lookup_contact-serve :
    (h : Hashing) (calls : List (Clock × ContactCall)) (d : Database) (fp : String)
    → (lookup_contact fp (serve h (quiet d) calls)).0 ≡ ok (steps h (book d) calls fp)
unfolding serve
lookup_contact-serve h [] d fp = lookup_of fp d
lookup_contact-serve h (call ∷ rest) d fp =
    let r = call-Refines h d call in
    ap (λ c. (lookup_contact fp (serve h c rest)).0) r.ends
    ∙ lookup_contact-serve h rest r.left fp
    ∙ ap (λ b. ok (steps h b rest fp)) r.shows
