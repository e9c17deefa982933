-- ===== src/Tests/Agreement.antt =====
-- Calls to both kinds of stores. A device id is written as a tally, the device 2 as "11".
use text.Mathlib.TextLemmas.{cons-append, nil-append, nil≢cons, tail-eq_of_cons-eq}
use lotl.Prelude.{
  number_eq, ℕ, suc, zero, ◌≡◌, refl, ap, ◌∙◌, sym, String, [], ◌∷◌, concat, false, arith,
}
use lotl.Errors.{signal_protocol, invalid_state}
use lotl.Exec.{ok, err, ◌>>◌}
use lotl.Exec.Trace.{trace}
use lotl.Sql.{quiet}
use lotl.Memory.Peers
use lotl.Memory.Peers.{new_identity_store, memory_session_store, memory_identity_store}
use lotl.Sqlite.Sessions.{sqlite_session_store}
use lotl.Memory.Peers.Address.{IsDecimal, has_colon}
use lotl.Sqlite.Identities.{
  set_local_identity_key_pair as sqlite_set_pair, get_local_registration_id as sqlite_registration,
  sqlite_identity_store,
}
use lotl.Agreement.Sessions
use lotl.Agreement.Sessions.{load, store, delete, session_stores_agree}
use lotl.Agreement.Identities
use lotl.Agreement.Identities.{set_local, local_registration, save, is_trusted, get}
use lotl.Agreement.Identities.Agree.{IdentityLaws, identity_stores_agree}
use lotl.Agreement.HalfSet.{get_local_registration_id-half_set}
use lotl.Tests.Device.{no_tables, byte_of, byte_laws}
use lotl.Tests.Sqlite.{identities, key_of, phone, laptop}

abbrev tally : ℕ → String
tally zero = ""
tally (suc n) = concat "1" (tally n)

tally-suc : (n : ℕ) → tally (suc n) ≡ String.◌∷◌ "1" (tally n)
tally-suc n = cons-append "1" String.[] (tally n) ∙ ap (String.◌∷◌ "1") (nil-append (tally n))

tally_injective : (a b : ℕ) → tally a ≡ tally b → a ≡ b
tally_injective zero zero e = refl
tally_injective zero (suc b) e = absurd (nil≢cons (e ∙ tally-suc b))
tally_injective (suc a) zero e = absurd (nil≢cons (sym e ∙ tally-suc a))
tally_injective (suc a) (suc b) e =
    ap (λ (n : ℕ). suc n)
      (tally_injective a b (tail-eq_of_cons-eq (sym (tally-suc a) ∙ e ∙ tally-suc b)))

tally-no_colon : (n : ℕ) → has_colon (tally n) ≡ false
tally-no_colon zero = refl
tally-no_colon (suc n) = rw (tally-suc n) (ground (arith, tally-no_colon n))

abbrev tally_laws : IsDecimal tally
tally_laws = record { injective = tally_injective; no_colon = tally-no_colon }

session_stores_agree_example :
    trace
      (Sessions.answer (memory_session_store tally))
      (record { sessions = [] })
      (store 10 phone 7 ∷ load laptop ∷ load phone ∷ delete phone ∷ Sessions.count ∷ [])
    ≡ trace
        (Sessions.answer (sqlite_session_store key_of byte_of))
        (quiet no_tables)
        (store 10 phone 7 ∷ load laptop ∷ load phone ∷ delete phone ∷ Sessions.count ∷ [])
session_stores_agree_example =
    session_stores_agree key_of byte_of byte_laws tally tally_laws
      (store 10 phone 7 ∷ load laptop ∷ load phone ∷ delete phone ∷ Sessions.count ∷ []) no_tables
      refl

abbrev identity_laws : IdentityLaws identities
identity_laws = record { key_from_lem = λ k. refl; pair_from_lem = λ p. refl }

identity_stores_agree_example :
    trace (Identities.answer (memory_identity_store tally)) new_identity_store (
      local_registration
      ∷ set_local 10 4 9
      ∷ save 20 phone 7
      ∷ is_trusted phone 8
      ∷ get laptop
      ∷ [])
    ≡ trace (Identities.answer (sqlite_identity_store identities)) (quiet no_tables) (
        local_registration
        ∷ set_local 10 4 9
        ∷ save 20 phone 7
        ∷ is_trusted phone 8
        ∷ get laptop
        ∷ [])
identity_stores_agree_example =
    identity_stores_agree identities identity_laws tally tally_laws
      (local_registration
        ∷ set_local 10 4 9
        ∷ save 20 phone 7
        ∷ is_trusted phone 8
        ∷ get laptop
        ∷ [])
      no_tables refl refl

get_local_registration_id-half_set_example :
    (((Peers.set_local_identity_key_pair {IdentityKey = ℕ} {IdentityKeyPair = ℕ} 4
          >> Peers.get_local_registration_id)
        new_identity_store).0
      ≡ err (signal_protocol (invalid_state "Local registration ID not set")))
    × (((sqlite_set_pair identities 10 4 >> sqlite_registration) (quiet no_tables)).0 ≡ ok 0)
get_local_registration_id-half_set_example =
    get_local_registration_id-half_set identities 10 4 new_identity_store no_tables refl refl
