-- ===== src/Sqlite/Storage/Ops.antt =====
-- `ExtendedStorageOps` of `SqliteStorage` in src/signal_storage.rs: libsignal on the storage's
-- stores, and when these calls panic. They look at the stores alone, and not, as the accessors
-- do, at whether the storage was closed.
use lotl.Prelude.{ℕ, ◌≡◌, refl, String, Bool, true, false, All, List, [], ◌∷◌, if◌then◌else◌}
use lotl.Exec.{Result}
use lotl.Sql.{Connection, within}
use lotl.Device.{Tables, Shared, signal_part}
use lotl.Libsignal.{Messages}
use lotl.Sqlite.Tables.{SignalTables}
use lotl.Sqlite.Storage.{SqliteStorage, Handle, new}
use lotl.Sqlite.Storage.Lifecycle.{
  Event, opened, closed, failed, Step, initializes, fails_to_initialize, closes, fails_to_close,
  Steps, none_yet, next, ever, is_closed, shut, initialize_schema_ok, initialize_schema_err,
  close_writes, close_err,
}

-- What a call that may panic comes to.
pub data Outcome (A : Type 0) : Type 0 where
  returned : Result A → Outcome A
  panicked : String → Outcome A

-- `store.as_mut().expect("Storage not initialized")` for each store, then the call.
unfoldable pub expecting : {A : Type 0} → List Bool → Shared A → Handle → Outcome A × Handle
expecting [] m h = let (r, c) = m h.connection in (returned r, record h { connection = c })
expecting (false ∷ stores) m h = (panicked "Storage not initialized", h)
expecting (true ∷ stores) m h = expecting stores m h

module _ {Bundle Ciphertext : Type 0}
    (messages : Messages (Connection SignalTables) Bundle Ciphertext) where
  unfoldable pub establish_session_from_bundle :
      ℕ → String × ℕ → Bundle → Handle → Outcome (Unit {0}) × Handle
  unfolding expecting
  establish_session_from_bundle timestamp address bundle h =
      expecting (h.storage.has_session_store ∷ h.storage.has_identity_store ∷ [])
        (within signal_part (messages.process_prekey_bundle timestamp address bundle)) h

  unfoldable pub encrypt_message : ℕ → String × ℕ → List ℕ → Handle → Outcome Ciphertext × Handle
  unfolding expecting
  encrypt_message now remote_address plaintext h =
      expecting (h.storage.has_session_store ∷ h.storage.has_identity_store ∷ [])
        (within signal_part (messages.message_encrypt now plaintext remote_address)) h

  unfoldable pub decrypt_message : String × ℕ → Ciphertext → Handle → Outcome (List ℕ) × Handle
  unfolding expecting
  decrypt_message remote_address ciphertext h =
      expecting
        (h.storage.has_session_store ∷ h.storage.has_identity_store ∷ h.storage.has_pre_key_store
          ∷ h.storage.has_signed_pre_key_store ∷ h.storage.has_kyber_pre_key_store ∷ [])
        (within signal_part (messages.message_decrypt ciphertext remote_address)) h

abbrev pub is_returned : {A : Type 0} → Outcome A → Bool
is_returned (returned r) = true
is_returned (panicked message) = false

expecting_same :
    {A : Type 0} (m : Shared A) (h : Handle) (b first : Bool) (stores : List Bool)
    → All (λ has. has ≡ b) (first ∷ stores)
    → is_returned (expecting (first ∷ stores) m h).0 ≡ b
unfolding expecting
expecting_same m h b false stores same = same.0
expecting_same m h b true [] same = same.0
expecting_same m h b true (second ∷ stores) same = expecting_same m h b second stores same.1

-- Whether the stores are there after the calls: a first closing takes them away, a closing of a
-- closed storage does nothing, and every opening brings them back.
abbrev pub has_stores : List Event → Bool
has_stores [] = false
has_stores (opened ∷ events) = true
has_stores (closed ∷ events) = if ever is_closed events then has_stores events else false
has_stores (failed ∷ events) = has_stores events

record Holds (storage : SqliteStorage) (has was_closed : Bool) : Type 0 where
  shut_is : storage.closed ≡ was_closed
  sessions : storage.has_session_store ≡ has
  identities : storage.has_identity_store ≡ has
  pre_keys : storage.has_pre_key_store ≡ has
  signed_pre_keys : storage.has_signed_pre_key_store ≡ has
  kyber_pre_keys : storage.has_kyber_pre_key_store ≡ has

Holds-closing :
    (storage : SqliteStorage) (is_shut b c : Bool)
    → storage.closed ≡ is_shut
    → is_shut ≡ c
    → Holds storage b c
    → Holds (if is_shut then storage else shut storage) (if c then b else false) true
Holds-closing storage true b true e f k = k
Holds-closing storage true b false e f k = absurd (cc)
Holds-closing storage false b true e f k = absurd (cc)
Holds-closing storage false b false e f k = record {
  shut_is = refl;
  sessions = refl;
  identities = refl;
  pre_keys = refl;
  signed_pre_keys = refl;
  kyber_pre_keys = refl;
}

Holds-Step :
    (before : List Event) (h h' : Handle) (e : Event)
    → Step h e h'
    → Holds h.storage (has_stores before) (ever is_closed before)
    → Holds h'.storage (has_stores (e ∷ before)) (ever is_closed (e ∷ before))
Holds-Step before _ _ _ (initializes now h i) k = rw (initialize_schema_ok now h i) (record {
  shut_is = k.shut_is;
  sessions = refl;
  identities = refl;
  pre_keys = refl;
  signed_pre_keys = refl;
  kyber_pre_keys = refl;
})
Holds-Step before _ _ _ (fails_to_initialize now h e' i) k = rw (initialize_schema_err now h e' i) k
Holds-Step before _ _ _ (closes h i) k =
    rw (close_writes h i) (Holds-closing h.storage h.storage.closed _ _ refl k.shut_is k)
Holds-Step before _ _ _ (fails_to_close h e' i) k = rw (close_err h e' i) k

Holds-Steps :
    (connection : Connection Tables) (events : List Event) (h : Handle)
    → Steps (new connection) events h
    → Holds h.storage (has_stores events) (ever is_closed events)
Holds-Steps connection events h none_yet = record {
  shut_is = refl;
  sessions = refl;
  identities = refl;
  pre_keys = refl;
  signed_pre_keys = refl;
  kyber_pre_keys = refl;
}
Holds-Steps connection events h (next before e h0 h' steps step) =
    Holds-Step before h0 h' e step (Holds-Steps connection before h0 steps)

module _ {Bundle Ciphertext : Type 0}
    (messages : Messages (Connection SignalTables) Bundle Ciphertext) where
  -- After any calls of `initialize` and `close` on a new storage, whichever statements the engine
  -- refused: the establishing of a session, the encryption and the decryption return, and do not
  -- panic, exactly when the stores are there, that is, after an opening that no first closing
  -- followed. So they run again on a storage that was closed and then initialized, whose
  -- accessors panic.
  pub ops_return :
      (connection : Connection Tables) (events : List Event) (h : Handle) (time : ℕ)
      (address : String × ℕ) (bundle : Bundle) (plaintext : List ℕ) (ciphertext : Ciphertext)
      → Steps (new connection) events h
      → (is_returned (establish_session_from_bundle messages time address bundle h).0
          ≡ has_stores events)
        × (is_returned (encrypt_message messages time address plaintext h).0 ≡ has_stores events)
        × (is_returned (decrypt_message messages address ciphertext h).0 ≡ has_stores events)
  unfolding establish_session_from_bundle encrypt_message decrypt_message
  ops_return connection events h time address bundle plaintext ciphertext steps =
      let k : Holds h.storage (has_stores events) (ever is_closed events) =
        Holds-Steps connection events h steps in
      (
        expecting_same _ h (has_stores events) h.storage.has_session_store
            (h.storage.has_identity_store ∷ []) (k.sessions, (k.identities, tt)),
        expecting_same _ h (has_stores events) h.storage.has_session_store
            (h.storage.has_identity_store ∷ []) (k.sessions, (k.identities, tt)),
        expecting_same _ h (has_stores events) h.storage.has_session_store
            (h.storage.has_identity_store ∷ h.storage.has_pre_key_store
              ∷ h.storage.has_signed_pre_key_store ∷ h.storage.has_kyber_pre_key_store ∷ [])
            (k.sessions, (k.identities, (k.pre_keys, (k.signed_pre_keys, (k.kyber_pre_keys, tt))))),
      )
