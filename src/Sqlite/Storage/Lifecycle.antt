-- ===== src/Sqlite/Storage/Lifecycle.antt =====
-- When a storage can be used: after an opening that succeeded, and never again after a closing.
use lotl.Prelude.{
  ◌≡◌, refl, sym, ◌↔◌, Bool, true, false, ◌||◌, List, [], ◌∷◌, ℕ, Bool-cases, inl, inr,
  if◌then◌else◌,
}
use lotl.Errors.{LotlError}
use lotl.Exec.{ok, err, ◌>>=◌, Result-cases}
use lotl.Sql.{Connection}
use lotl.Device.{Tables}
use lotl.Sqlite.Storage.{
  Handle, new, initialize_schema, close, connected, update_storage, create_tables, checkpoint,
  session_store, identity_store, pre_key_store, signed_pre_key_store, kyber_pre_key_store, returns,
  accessed, with_stores, SqliteStorage,
}

-- What a call of the storage did.
pub data Event : Type 0 where
  opened closed failed : Event

-- One call, of `initialize` or of `close`.
pub data Step : Handle → Event → Handle → Type 0 where
  initializes :
      (now : ℕ) (h : Handle)
      → (initialize_schema now h).0 ≡ ok tt
      → Step h opened (initialize_schema now h).1
  fails_to_initialize :
      (now : ℕ) (h : Handle) (e : LotlError)
      → (initialize_schema now h).0 ≡ err e
      → Step h failed (initialize_schema now h).1
  closes : (h : Handle) → (close h).0 ≡ ok tt → Step h closed (close h).1
  fails_to_close : (h : Handle) (e : LotlError) → (close h).0 ≡ err e → Step h failed (close h).1

-- The calls up to a state, with what they did, the last call first.
pub data Steps (start : Handle) : List Event → Handle → Type 0 where
  none_yet : Steps start [] start
  next :
      (events : List Event) (e : Event) (h h' : Handle)
      → Steps start events h
      → Step h e h'
      → Steps start (e ∷ events) h'

abbrev pub is_opened : Event → Bool
is_opened opened = true
is_opened closed = false
is_opened failed = false

abbrev pub is_closed : Event → Bool
is_closed opened = false
is_closed closed = true
is_closed failed = false

abbrev pub ever : (Event → Bool) → List Event → Bool
ever p [] = false
ever p (e ∷ events) = p e || ever p events

-- Every accessor gives its store.
pub record Serves (h : Handle) : Type 0 where
  pub sessions : session_store h ≡ returns
  pub identities : identity_store h ≡ returns
  pub pre_keys : pre_key_store h ≡ returns
  pub signed_pre_keys : signed_pre_key_store h ≡ returns
  pub kyber_pre_keys : kyber_pre_key_store h ≡ returns

-- The storage's fields after the calls, as far as an accessor can tell.
record Follows (storage : SqliteStorage) (was_opened was_closed : Bool) : Type 0 where
  is_shut : storage.closed ≡ was_closed
  sessions : storage.closed ≡ false → storage.has_session_store ≡ was_opened
  identities : storage.closed ≡ false → storage.has_identity_store ≡ was_opened
  pre_keys : storage.closed ≡ false → storage.has_pre_key_store ≡ was_opened
  signed_pre_keys : storage.closed ≡ false → storage.has_signed_pre_key_store ≡ was_opened
  kyber_pre_keys : storage.closed ≡ false → storage.has_kyber_pre_key_store ≡ was_opened

pub initialize_schema_ok :
    (now : ℕ) (h : Handle)
    → (initialize_schema now h).0 ≡ ok tt
    → (initialize_schema now h).1.storage ≡ with_stores true h.storage
unfolding initialize_schema connected update_storage ◌>>=◌
initialize_schema_ok now h e = elim (Result-cases (create_tables now h.connection).0) [
  | inl (a, r) ↦ rw r refl
  | inr (e', r) ↦ absurd (cc (rw r at e))
]

pub initialize_schema_err :
    (now : ℕ) (h : Handle) (e : LotlError)
    → (initialize_schema now h).0 ≡ err e
    → (initialize_schema now h).1.storage ≡ h.storage
unfolding initialize_schema connected update_storage ◌>>=◌
initialize_schema_err now h e' e = elim (Result-cases (create_tables now h.connection).0) [
  | inl (a, r) ↦ absurd (cc (rw r at e))
  | inr (e'', r) ↦ rw r refl
]

abbrev pub shut : SqliteStorage → SqliteStorage
shut storage = with_stores false (record storage { closed = true })

-- A second closing does nothing.
pub close_writes :
    (h : Handle)
    → (close h).0 ≡ ok tt
    → (close h).1.storage ≡ (if h.storage.closed then h.storage else shut h.storage)
unfolding close connected update_storage ◌>>=◌
close_writes h e = elim (Bool-cases h.storage.closed) [
  | inl c ↦ rw c refl
  | inr c ↦ elim (Result-cases (checkpoint h.connection).0) [
    | inl (a, r) ↦ rw (c, r) refl
    | inr (e', r) ↦ absurd (cc (rw (c, r) at e))
  ]
]

close_ok : (h : Handle) → (close h).0 ≡ ok tt → (close h).1.storage.closed ≡ true
unfolding close connected update_storage ◌>>=◌
close_ok h e = elim (Bool-cases h.storage.closed) [
  | inl c ↦ rw c refl
  | inr c ↦ elim (Result-cases (checkpoint h.connection).0) [
    | inl (a, r) ↦ rw (c, r) refl
    | inr (e', r) ↦ absurd (cc (rw (c, r) at e))
  ]
]

pub close_err : (h : Handle) (e : LotlError) → (close h).0 ≡ err e → (close h).1.storage ≡ h.storage
unfolding close connected update_storage ◌>>=◌
close_err h e' e = elim (Bool-cases h.storage.closed) [
  | inl c ↦ rw c refl
  | inr c ↦ elim (Result-cases (checkpoint h.connection).0) [
    | inl (a, r) ↦ absurd (cc (rw (c, r) at e))
    | inr (e'', r) ↦ rw (c, r) refl
  ]
]

Follows-Step :
    (h h' : Handle) (e : Event) (o c : Bool)
    → Step h e h'
    → Follows h.storage o c
    → Follows h'.storage (is_opened e || o) (is_closed e || c)
Follows-Step _ _ _ o c (initializes now h i) f = rw (initialize_schema_ok now h i) (record {
  is_shut = f.is_shut;
  sessions = λ n. refl;
  identities = λ n. refl;
  pre_keys = λ n. refl;
  signed_pre_keys = λ n. refl;
  kyber_pre_keys = λ n. refl;
})
Follows-Step _ _ _ o c (fails_to_initialize now h e' i) f = rw (initialize_schema_err now h e' i) f
Follows-Step _ _ _ o c (closes h i) f =
    let shut' : (close h).1.storage.closed ≡ true = close_ok h i in
    record {
      is_shut = shut';
      sessions = λ n. absurd (cc);
      identities = λ n. absurd (cc);
      pre_keys = λ n. absurd (cc);
      signed_pre_keys = λ n. absurd (cc);
      kyber_pre_keys = λ n. absurd (cc);
    }
Follows-Step _ _ _ o c (fails_to_close h e' i) f = rw (close_err h e' i) f

Follows-Steps :
    (connection : Connection Tables) (events : List Event) (h : Handle)
    → Steps (new connection) events h
    → Follows h.storage (ever is_opened events) (ever is_closed events)
Follows-Steps connection events h none_yet = record {
  is_shut = refl;
  sessions = λ n. refl;
  identities = λ n. refl;
  pre_keys = λ n. refl;
  signed_pre_keys = λ n. refl;
  kyber_pre_keys = λ n. refl;
}
Follows-Steps connection events h (next before e h0 h' steps step) =
    Follows-Step h0 h' e _ _ step (Follows-Steps connection before h0 steps)

returns_iff :
    (shut' has o c : Bool)
    → shut' ≡ c
    → (shut' ≡ false → has ≡ o)
    → (accessed shut' has ≡ returns) ↔ ((o ≡ true) × (c ≡ false))
returns_iff true has o c e f = (λ r. absurd (cc), λ p. absurd (cc))
returns_iff false true o c e f = (λ r. (sym (f refl), sym e), λ p. refl)
returns_iff false false o c e f =
    let unset : false ≡ o = f refl in (λ r. absurd (cc), λ p. absurd (cc))

-- After any calls of `initialize` and `close` on a new storage, whichever statements the engine
-- refused: the accessors of the five stores return, and do not panic, exactly when some call
-- opened the storage and no call closed it; so a storage that was closed never serves again.
pub Serves-iff :
    (connection : Connection Tables) (events : List Event) (h : Handle)
    → Steps (new connection) events h
    → Serves h ↔ ((ever is_opened events ≡ true) × (ever is_closed events ≡ false))
Serves-iff connection events h steps =
    let f : Follows h.storage (ever is_opened events) (ever is_closed events) =
      Follows-Steps connection events h steps in
    (
      λ s. (returns_iff _ _ _ _ f.is_shut f.sessions).0 s.sessions,
      λ p. record {
        sessions = (returns_iff _ _ _ _ f.is_shut f.sessions).1 p;
        identities = (returns_iff _ _ _ _ f.is_shut f.identities).1 p;
        pre_keys = (returns_iff _ _ _ _ f.is_shut f.pre_keys).1 p;
        signed_pre_keys = (returns_iff _ _ _ _ f.is_shut f.signed_pre_keys).1 p;
        kyber_pre_keys = (returns_iff _ _ _ _ f.is_shut f.kyber_pre_keys).1 p;
      },
    )
