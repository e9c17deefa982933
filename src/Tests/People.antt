-- ===== src/Tests/People.antt =====
-- Runs of the contact book, of the Nostr keys and of trust on first use. A hash of a test is the
-- first byte, in one letter.
use lotl.Prelude.{
  number_eq, address_eq, bytes_eq, string_eq, ◌≡◌, ℕ, zero, String, true, false, none, some, List,
  [], ◌∷◌, inl, inr,
}
use lotl.Prelude.Int.{pos, as_i64}
use lotl.Exec.{ok}
use lotl.Sql.{quiet}
use lotl.Types.{ContactInfo}
use lotl.Database.{Database, empty_database}
use lotl.Contacts.{Hashing, Clock, lookup_contact, update_contact_alias}
use lotl.Contacts.Refines.{lookup_contact-serve}
use lotl.Contacts.Book.{lookup_contact-update_contact_alias_any}
use lotl.Contacts.Calls
use lotl.Contacts.Calls.{ContactCall, add, rename}
use lotl.Nostr.{get_nostr_pubkey, get_fingerprint_by_nostr_pubkey}
use lotl.Nostr.Registry
use lotl.Nostr.Registry.{Store}
use lotl.Nostr.Refines.{get-serve}

abbrev letter : List ℕ → String
letter (zero ∷ bytes) = "a"
letter _ = "b"

abbrev hashing : Hashing
hashing = record { sha256 = λ bytes. bytes; hex = letter; as_bytes = λ s. [] }

abbrev alice : ContactInfo
alice = record {
  fingerprint = "x:a";
  signal_identity_key = 0 ∷ [];
  user_alias = some "Alice";
  first_seen = pos 5;
  last_updated = pos 6;
}

abbrev with_alice : Database
with_alice = record (empty_database true) { contacts = alice ∷ [] }

lookup_contact-update_contact_alias_any_example :
    ((update_contact_alias (inr 9) "x:a" (some "A") (quiet with_alice)).0 ≡ ok tt)
    × ((lookup_contact "x:a" (update_contact_alias (inr 9) "x:a" (some "A") (quiet with_alice)).1).0
        ≡ ok (some (record alice { user_alias = some "A"; last_updated = as_i64 9 })))
lookup_contact-update_contact_alias_any_example =
    lookup_contact-update_contact_alias_any 9 "x:a" (some "A") with_alice

abbrev calls : List (Clock × ContactCall)
calls =
    (inr 9, add (1 ∷ []) (some "Bob") "salt" "x:")
    ∷ (inl "before 1970", rename "x:a" none)
    ∷ (inr 10, add (1 ∷ 2 ∷ []) none "salt" "x:")
    ∷ []

-- Bob was added twice, the second time with no alias.
lookup_contact-serve_example :
    (lookup_contact "x:b" (Calls.serve hashing (quiet with_alice) calls)).0
    ≡ ok (
        some (record {
          fingerprint = "x:b";
          signal_identity_key = 1 ∷ 2 ∷ [];
          user_alias = none;
          first_seen = pos 9;
          last_updated = pos 10;
        }))
lookup_contact-serve_example = lookup_contact-serve hashing calls with_alice "x:b"

-- Alice has a Nostr key.
abbrev with_key : Database
with_key = record with_alice {
  nostr_identities =
      record { fingerprint = "x:a"; nostr_pubkey = "k1"; derivation_context = "v1" } ∷ [];
  foreign_keys = false;
}

-- Bob asks for Alice's key in vain; Alice takes another, and then he gets it.
abbrev stores : List Store
stores = ("x:b", "k1", "v1") ∷ ("x:a", "k2", "v1") ∷ ("x:b", "k1", "v1") ∷ []

get-serve_example :
    ((get_nostr_pubkey "x:b" (Registry.serve (quiet with_key) stores)).0 ≡ ok (some "k1"))
    × ((get_fingerprint_by_nostr_pubkey "k1" (Registry.serve (quiet with_key) stores)).0
        ≡ ok (some "x:b"))
get-serve_example = get-serve stores with_key "x:b" "k1" ((tt, tt), (tt, tt))
