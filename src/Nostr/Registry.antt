-- ===== src/Nostr/Registry.antt =====
-- The registry that src/integrations/nostr/storage.rs implements: the map between fingerprints
-- and Nostr keys in both directions, and a step for a store.
use lotl.Prelude.{
  string_eq, ◌≡◌, String, Bool, true, not, ◌&&◌, Option, none, some, List, [], ◌∷◌, ◌==◌, any_where,
  if◌then◌else◌,
}
use lotl.Sql.{Connection}
use lotl.Database.{Database}
use lotl.Contacts.{is_contact}
use lotl.Nostr.{store_nostr_identity}
use lotl.Nostr.OneToOne.{pubkey_of, owner_of}

pub record Registry : Type 0 where
  pub keys : String → Option String
  pub owners : String → Option String

-- The fingerprint, the key and the derivation context of a store.
abbrev pub Store : Type 0
Store = String × String × String

-- A key of the fingerprint is given up for the new one.
abbrev pub dropped : String → Option String → Option String
dropped fp none = none
dropped fp (some owner) = if owner == fp then none else some owner

abbrev pub set : String → String → Registry → Registry
set fp key r = record {
  keys = λ fp'. if fp == fp' then some key else r.keys fp';
  owners = λ key'. if key == key' then some fp else dropped fp (r.owners key');
}

abbrev pub is_free : String → Option String → Bool
is_free fp none = true
is_free fp (some owner) = owner == fp

abbrev pub step : (String → Bool) → Registry → Store → Registry
step listed r (fp, key, context) =
    if is_free fp (r.owners key) && listed fp then set fp key r else r

abbrev pub steps : (String → Bool) → Registry → List Store → Registry
steps listed r [] = r
steps listed r (store ∷ rest) = steps listed (step listed r store) rest

abbrev pub registry : Database → Registry
registry d = record { keys = λ fp. pubkey_of fp d; owners = λ key. owner_of key d }

-- The contacts whose keys the engine takes.
abbrev pub listed_in : Database → String → Bool
listed_in d fp = not (d.foreign_keys && not (any_where (is_contact fp) d.contacts))

-- One store after the other, whatever each returns.
abbrev pub serve : Connection Database → List Store → Connection Database
serve c [] = c
serve c ((fp, key, context) ∷ rest) = serve (store_nostr_identity fp key context c).1 rest

pub same_registry :
    (a b : Registry)
    → ((fp : String) → a.keys fp ≡ b.keys fp)
    → ((key : String) → a.owners key ≡ b.owners key)
    → a ≡ b
same_registry a b k o = λ i. record { keys = λ fp. k fp i; owners = λ key. o key i }
