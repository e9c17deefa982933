-- ===== src/Sqlite/Sessions.antt =====
-- `SqliteSessionStore` of src/signal_storage.rs. An address is a name and a device id; `now` is what
-- SQLite's strftime('%s', 'now') reads.
use lotl.Prelude.{address_eq, ℕ, String, Option, none, some, List, [], length}
use lotl.Errors.{database, query_returned_no_rows}
use lotl.Exec.{Result, ok, err, Exec, pure, raise, lift, caught, map_err, unwrap_or, ◌>>=◌}
use lotl.StorageTrait.{SessionStore}
use lotl.Sql.{Connection, statement}
use lotl.HashMap.{lookup, insert, remove}
use lotl.Sqlite.Tables.{SignalTables, SessionRow}
use lotl.Sqlite.KeyTable.{storage_error, row_or_none}

module _ {Session : Type 0} (deserialize : List ℕ → Result Session)
    (serialize : Session → Result (List ℕ)) where
  unfoldable pub loaded : Result SessionRow → Exec (Connection SignalTables) (Option Session)
  loaded (ok row) = do
    session ← map_err storage_error (lift (deserialize row.session_data))
    pure (some session)
  loaded (err (database query_returned_no_rows)) = pure none
  loaded (err e) = raise (storage_error e)

  unfoldable pub load_session : String × ℕ → Exec (Connection SignalTables) (Option Session)
  unfolding loaded
  load_session address = do
    result ← caught (statement (λ t. (row_or_none (lookup address t.sessions), t)))
    loaded result

  -- INSERT OR REPLACE INTO sessions (address, device_id, session_data, updated_at)
  unfoldable pub store_session :
      ℕ → String × ℕ → Session → Exec (Connection SignalTables) (Unit {0})
  store_session now address record' = do
    serialized ← map_err storage_error (lift (serialize record'))
    map_err storage_error (
        statement (λ t. (
          ok tt,
          record t {
            sessions =
                insert address
                  (record { session_data = serialized; created_at = now; updated_at = now })
                  t.sessions;
          },
        )))

unfoldable pub session_count : Exec (Connection SignalTables) ℕ
session_count = unwrap_or 0 (statement (λ t. (ok (length t.sessions), t)))

unfoldable pub clear_all_sessions : Exec (Connection SignalTables) (Unit {0})
clear_all_sessions = statement (λ t. (ok tt, record t { sessions = [] }))

unfoldable pub delete_session : String × ℕ → Exec (Connection SignalTables) (Unit {0})
delete_session address = statement (λ t. (ok tt, record t { sessions = remove address t.sessions }))

-- `impl SessionStore` and `impl ExtendedSessionStore`
abbrev pub sqlite_session_store :
    {Session : Type 0}
    → (List ℕ → Result Session)
    → (Session → Result (List ℕ))
    → SessionStore (Connection SignalTables) Session
sqlite_session_store deserialize serialize = record {
  load_session = load_session deserialize serialize;
  store_session = store_session deserialize serialize;
  session_count = session_count;
  clear_all_sessions = clear_all_sessions;
  delete_session = delete_session;
}
