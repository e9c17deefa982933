-- ===== src/Api/Sessions.antt =====
-- The sessions that an instance of `Lotl` (src/lib.rs) reports, after one is deleted.
use lotl.Prelude.{
  address_eq, string_eq, ℕ, ◌≡◌, refl, String, Option, false, some, List, [], ◌∷◌, ◌==◌,
  if◌then◌else◌, ltb, count_where, arith, ap, ◌∙◌, Bool-cases, inl, inr,
}
use lotl.Exec.{ok}
use lotl.Exec.Ends.{step_ok, unwrap_or_ok, lift_ok, map_err_ok}
use lotl.Sql.{statement-quiet, query-quiet, within, quiet}
use lotl.HashMap.{remove}
use lotl.Sqlite.Tables.{SignalTables, SessionRow}
use lotl.Sqlite.Sessions
use lotl.Sqlite.Storage.{SqliteStorage, session_store}
use lotl.Sqlite.Storage.Lifecycle.{Serves}
use lotl.Api.State.{
  Lotl, on_connection, on_signal, on_signal-query, signal_connection,
  ensure_storage_initialized-open, opened_storage-open, handle_of, access-returns,
}
use lotl.Api.Calls.{Cipher, delete_session, has_session, found_in, session_rows}

count_where-remove :
    (p q : String) (m : List ((String × ℕ) × SessionRow))
    → count_where (λ entry. entry.0 == (q, 1)) (remove (p, 1) m)
      ≡ (if p == q then 0 else count_where (λ entry. entry.0 == (q, 1)) m)
unfolding remove
count_where-remove p q [] = ground arith
count_where-remove p q ((a, row) ∷ m) = ground (
  arith,
  string_eq.same_iff p q,
  address_eq.same_iff a (p, 1),
  address_eq.same_iff a (q, 1),
  address_eq.same_iff (p, 1) (q, 1),
  count_where-remove p q m,
)

-- On an open instance whose engine refuses nothing, a session is reported when the table has a row.
pub has_session-open :
    (q : String) (lotl' : Lotl) (opened : SqliteStorage)
    → lotl'.storage ≡ some opened
    → lotl'.db_connection.faults ≡ []
    → has_session q lotl' ≡ (ok (ltb 0 (session_rows q lotl'.db_connection.tables.signal)), lotl')
unfolding has_session
has_session-open q lotl' opened is_open quiet_engine =
    ap (λ (o : Option SqliteStorage). found_in q o lotl') is_open
    ∙ unwrap_or_ok false _ lotl' lotl' _ (
        on_signal-query _ lotl' _ (
          query-quiet (λ (t : SignalTables). ok (ltb 0 (session_rows q t)))
            (signal_connection lotl') quiet_engine))

abbrev without_sessions : String × ℕ → Lotl → Lotl
without_sessions address lotl' = record lotl' {
  db_connection = quiet (record lotl'.db_connection.tables {
    signal = record lotl'.db_connection.tables.signal {
      sessions = remove address lotl'.db_connection.tables.signal.sessions;
    };
  });
}

rows_deleted :
    (address : String × ℕ) (lotl' : Lotl)
    → lotl'.db_connection.faults ≡ []
    → on_signal (Sessions.delete_session address) lotl' ≡ (ok tt, without_sessions address lotl')
unfolding on_connection within Sessions.delete_session
rows_deleted address lotl' quiet_engine =
    rw
      (statement-quiet
        (λ (t : SignalTables). (ok tt, record t { sessions = remove address t.sessions }))
        (signal_connection lotl') quiet_engine)
      refl

module _ {Ciphertext : Type 0} (cipher : Cipher Ciphertext)
    (device : cipher.device_id 1 ≡ ok 1) where
  delete_session-open :
      (now : ℕ) (p : String) (lotl' : Lotl) (opened : SqliteStorage)
      → lotl'.storage ≡ some opened
      → Serves (handle_of opened lotl')
      → lotl'.db_connection.faults ≡ []
      → delete_session cipher now p lotl' ≡ (ok tt, without_sessions (p, 1) lotl')
  unfolding delete_session
  delete_session-open now p lotl' opened is_open serves quiet_engine =
      step_ok _ _ lotl' lotl' tt (ensure_storage_initialized-open now lotl' opened is_open)
      ∙ step_ok _ _ lotl' lotl' opened (opened_storage-open lotl' opened is_open)
      ∙ step_ok _ _ lotl' lotl' 1
          (map_err_ok _ _ lotl' lotl' 1 (lift_ok (cipher.device_id 1) lotl' 1 device))
      ∙ step_ok _ _ lotl' lotl' tt (access-returns session_store opened lotl' serves.sessions)
      ∙ map_err_ok _ _ lotl' _ tt (rows_deleted (p, 1) lotl' quiet_engine)

  -- Where libsignal takes 1 for a device id: on an open instance whose storage gives its stores,
  -- which a closed one does not, and whose engine refuses nothing, the deletion of the session
  -- with a peer succeeds; no session with that peer is reported then, and for any other peer what
  -- was reported before.
  pub has_session-delete_session :
      (now : ℕ) (p q : String) (lotl' : Lotl) (opened : SqliteStorage)
      → lotl'.storage ≡ some opened
      → Serves (handle_of opened lotl')
      → lotl'.db_connection.faults ≡ []
      → ((delete_session cipher now p lotl').0 ≡ ok tt)
        × ((has_session q (delete_session cipher now p lotl').1).0
            ≡ (if p == q then ok false else (has_session q lotl').0))
  has_session-delete_session now p q lotl' opened is_open serves quiet_engine =
      rw
        (
          delete_session-open now p lotl' opened is_open serves quiet_engine,
          has_session-open q lotl' opened is_open quiet_engine,
          has_session-open q (without_sessions (p, 1) lotl') opened is_open refl,
          count_where-remove p q lotl'.db_connection.tables.signal.sessions,
        )
        (refl, elim (Bool-cases (p == q)) [ inl e ↦ rw e | inr e ↦ rw e ])
