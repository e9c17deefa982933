-- ===== src/Api/Bundles/Session.antt =====
-- The session that `process_prekey_bundle` of src/lib.rs establishes, and what `has_session` reports
-- of it.
use lotl.Prelude.{
  address_eq, string_eq, number_eq, ℕ, Eq, ◌<◌, ◌≡◌, refl, ap, String, true, false, ◌&&◌, some,
  List, [], ◌∷◌, ◌==◌, if◌then◌else◌, ltb, count_where, arith, Bool-cases, inl, inr,
}
use lotl.Exec.{ok, ◌>>=◌}
use lotl.Sql.{Connection, within}
use lotl.HashMap.{insert}
use lotl.Sqlite.Tables.{SignalTables, SessionRow}
use lotl.Libsignal.{Messages}
use lotl.Sqlite.Storage.{SqliteStorage}
use lotl.Sqlite.Storage.Ops.{establish_session_from_bundle, expecting}
use lotl.Api.State.{
  Lotl, Signal, on_storage, on_connection, signal_connection, ensure_storage_initialized,
  opened_storage,
}
use lotl.Api.Bundles.{SerializableBundle, BundleFormat, BundleReader, process_prekey_bundle}
use lotl.Api.Calls.{has_session}
use lotl.Api.Sessions.{has_session-open}

abbrev Sessions : Type 0
Sessions = List ((String × ℕ) × SessionRow)

abbrev rows_of : String → Sessions → ℕ
rows_of q m = count_where (λ entry. entry.0 == (q, 1)) m

rows_of-insert_ne :
    (address : String × ℕ) (row : SessionRow) (q : String) (m : Sessions)
    → (address == (q, 1)) ≡ false
    → rows_of q (insert address row m) ≡ rows_of q m
unfolding insert
rows_of-insert_ne address row q [] h = ground arith
rows_of-insert_ne address row q ((a, old) ∷ m) h = ground (
  arith,
  address_eq.same_iff a address,
  address_eq.same_iff a (q, 1),
  address_eq.same_iff address (q, 1),
  rows_of-insert_ne address row q m h,
)

rows_of-insert :
    (address : String × ℕ) (row : SessionRow) (q : String) (m : Sessions)
    → (address == (q, 1)) ≡ true
    → 0 < rows_of q (insert address row m)
unfolding insert
rows_of-insert address row q [] h = ground arith
rows_of-insert address row q ((a, old) ∷ m) h = ground (
  arith,
  address_eq.same_iff a address,
  address_eq.same_iff a (q, 1),
  address_eq.same_iff address (q, 1),
  rows_of-insert address row q m h,
)

reported :
    (address : String × ℕ) (row : SessionRow) (q : String) (m : Sessions)
    → ltb 0 (rows_of q (insert address row m))
      ≡ (if address == (q, 1) then true else ltb 0 (rows_of q m))
reported address row q m = elim (Bool-cases (address == (q, 1))) [
  | inl e ↦ rw e (ground (arith, rows_of-insert address row q m e))
  | inr e ↦ rw e (ap (λ n. ltb 0 n) (rows_of-insert_ne address row q m e))
]

module _ {IdentityKey IdentityKeyPair Signed Kyber PreKey KeyPair KemKeyPair Signature : Type 0}
    ⦃key_eq : Eq IdentityKey⦄
    (signal : Signal IdentityKey IdentityKeyPair Signed Kyber PreKey KeyPair KemKeyPair Signature)
    (format : BundleFormat Signed Kyber PreKey) {PublicKey KemPublicKey PreKeyBundle : Type 0}
    (reader : BundleReader IdentityKey PublicKey KemPublicKey PreKeyBundle) {Ciphertext : Type 0}
    (messages : Messages (Connection SignalTables) PreKeyBundle Ciphertext) where
  -- bincode reads the bytes, and libsignal every field of the bundle.
  pub record IsReadable (bytes : List ℕ) : Type 0 where
    pub serialized : SerializableBundle
    pub reads : format.from_bytes bytes ≡ ok serialized
    pub identity_key : IdentityKey
    pub identity : signal.identities.key_from serialized.identity_key ≡ ok identity_key
    pub pre_key : PublicKey
    pub pre : reader.public_key serialized.pre_key_public ≡ ok pre_key
    pub signed_key : PublicKey
    pub signed : reader.public_key serialized.signed_pre_key_public ≡ ok signed_key
    pub kyber_key : KemPublicKey
    pub kyber : reader.kem_public_key serialized.kyber_pre_key_public ≡ ok kyber_key
    pub device : reader.device_id serialized.device_id ≡ ok serialized.device_id
    pub bundle : PreKeyBundle
    pub made :
        reader.new_bundle serialized.registration_id serialized.device_id
          (serialized.pre_key_id, pre_key)
          serialized.signed_pre_key_id
          signed_key
          serialized.signed_pre_key_signature
          serialized.kyber_pre_key_id
          kyber_key
          serialized.kyber_pre_key_signature
          identity_key
        ≡ ok bundle

  -- libsignal's `process_prekey_bundle` accepts the bundle, and stores a session under the
  -- address that it is given.
  pub record IsEstablished (timestamp : ℕ) (address : String × ℕ) (bundle : PreKeyBundle)
      (c : Connection SignalTables) : Type 0 where
    pub left : Connection SignalTables
    pub succeeds : messages.process_prekey_bundle timestamp address bundle c ≡ (ok tt, left)
    pub row : SessionRow
    pub stored : left.tables.sessions ≡ insert address row c.tables.sessions
    pub quiet_engine : left.faults ≡ []

  module _ (now timestamp : ℕ) (p : String) (bytes : List ℕ) (lotl' : Lotl) (opened : SqliteStorage)
      (is_open : lotl'.storage ≡ some opened) (sessions : opened.has_session_store ≡ true)
      (identities : opened.has_identity_store ≡ true)
      (quiet_engine : lotl'.db_connection.faults ≡ []) (r : IsReadable bytes)
      (e : IsEstablished timestamp
        (p, r.serialized.device_id)
        r.bundle
        (signal_connection lotl')) where
    abbrev after : Lotl
    after = record lotl' {
      storage = some opened;
      db_connection = record {
        tables = record lotl'.db_connection.tables { signal = e.left.tables };
        faults = e.left.faults;
      };
    }

    process_prekey_bundle-open :
        process_prekey_bundle signal format reader messages now timestamp p bytes lotl'
        ≡ (ok tt, after)
    unfolding process_prekey_bundle on_storage establish_session_from_bundle expecting
        ensure_storage_initialized opened_storage on_connection within ◌>>=◌
    process_prekey_bundle-open =
        rw
          (
            is_open, r.reads, r.identity, r.pre, r.signed, r.kyber, r.device, r.made, sessions,
            identities, e.succeeds,
          )
          refl

    -- On an open instance that has its session and its identity store and whose engine refuses
    -- nothing, for a bundle that can be read and that libsignal's `process_prekey_bundle`
    -- accepts, storing a session under the address that it is given: processing the bundle of a
    -- peer succeeds; a session with that peer is reported then if the bundle names the device 1,
    -- and with no other device, and for any other peer what was reported before.
    pub has_session-process_prekey_bundle :
        (q : String)
        → ((process_prekey_bundle signal format reader messages now timestamp p bytes lotl').0
            ≡ ok tt)
          × ((has_session q
                (process_prekey_bundle signal format reader messages now timestamp p bytes
                  lotl').1).0
              ≡ (if p == q && r.serialized.device_id == 1
                  then ok true
                  else (has_session q lotl').0))
    has_session-process_prekey_bundle q =
        rw
          (
            process_prekey_bundle-open,
            has_session-open q lotl' opened is_open quiet_engine,
            has_session-open q after opened refl e.quiet_engine,
            e.stored,
            reported (p, r.serialized.device_id) e.row q lotl'.db_connection.tables.signal.sessions,
          )
          (
            refl,
            elim (Bool-cases (p == q && r.serialized.device_id == 1)) [
              | inl k ↦ rw k refl
              | inr k ↦ rw k refl
            ],
          )
