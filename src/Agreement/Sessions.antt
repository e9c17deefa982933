-- ===== src/Agreement/Sessions.antt =====
-- The session stores: `MemorySessionStore` and `SqliteSessionStore`.
use lotl.Prelude.{
  string_eq, address_eq, ℕ, ◌≡◌, refl, ap, sym, String, Option, none, some, List, [],
}
use lotl.Exec.{Result, ok, Exec, pure, ◌>>=◌, ◌>>◌}
use lotl.Exec.Trace.{trace, Simulates, trace-Simulates}
use lotl.Sql.{Connection, statement, quiet}
use lotl.HashMap.{lookup}
use lotl.HashMap.Mirror.{
  Mirror, SameOption, lookup-Mirror, insert-Mirror, remove-Mirror, length-Mirror,
}
use lotl.Sqlite.Tables.{SignalTables, SessionRow}
use lotl.Sqlite.PreKeys.Laws.{BytesLaws}
use lotl.StorageTrait.{SessionStore}
use lotl.Sqlite.Sessions
use lotl.Sqlite.Sessions.{sqlite_session_store}
use lotl.Memory.Peers
use lotl.Memory.Peers.{MemorySessionStore, address_key, memory_session_store}
use lotl.Memory.Peers.Address.{IsDecimal, address_key_apart}

-- The methods of `SessionStore` and `ExtendedSessionStore`; `store` has the engine's time.
pub data SessionCall (Session : Type 0) : Type 0 where
  load : String × ℕ → SessionCall Session
  store : ℕ → String × ℕ → Session → SessionCall Session
  count : SessionCall Session
  clear_all : SessionCall Session
  delete : String × ℕ → SessionCall Session

pub data SessionAnswer (Session : Type 0) : Type 0 where
  found : Option Session → SessionAnswer Session
  counted : ℕ → SessionAnswer Session
  done : SessionAnswer Session

module _ {S Session : Type 0} (store' : SessionStore S Session) where
  unfoldable pub answer : SessionCall Session → Exec S (SessionAnswer Session)
  answer (load a) = do r ← store'.load_session a; pure (found r)
  answer (store now a s) = do store'.store_session now a s; pure done
  answer count = do n ← store'.session_count; pure (counted n)
  answer clear_all = do store'.clear_all_sessions; pure done
  answer (delete a) = do store'.delete_session a; pure done

module _ {Session : Type 0} (deserialize : List ℕ → Result Session)
    (serialize : Session → Result (List ℕ)) (laws : BytesLaws deserialize serialize)
    (decimal : ℕ → String) (decimal_laws : IsDecimal decimal) where
  abbrev in_memory : SessionCall Session → Exec (MemorySessionStore Session) (SessionAnswer Session)
  in_memory = answer (memory_session_store decimal)

  abbrev in_sqlite : SessionCall Session → Exec (Connection SignalTables) (SessionAnswer Session)
  in_sqlite = answer (sqlite_session_store deserialize serialize)

  abbrev Same : SessionRow → Session → Type 0
  Same row s = deserialize row.session_data ≡ ok s

  -- One engine that refuses nothing, and the same sessions.
  record Matches (m : MemorySessionStore Session) (c : Connection SignalTables) : Type 0 where
    tables : SignalTables
    quiet_engine : c ≡ quiet tables
    mirror : Mirror (address_key decimal) Same tables.sessions m.sessions

  abbrev Agree :
      Result (SessionAnswer Session) × MemorySessionStore Session
      → Result (SessionAnswer Session) × Connection SignalTables
      → Type 0
  Agree x y = (x.0 ≡ y.0) × Matches x.1 y.1

  load_agrees :
      (a : String × ℕ) (m : MemorySessionStore Session) (t : SignalTables) (o : Option SessionRow)
      (p : Option Session)
      → lookup a t.sessions ≡ o
      → lookup (address_key decimal a) m.sessions ≡ p
      → SameOption (address_key decimal) Same o p
      → Mirror (address_key decimal) Same t.sessions m.sessions
      → Agree (in_memory (load a) m) (in_sqlite (load a) (quiet t))
  unfolding answer Peers.load_session Sessions.load_session statement ◌>>=◌
  load_agrees a m t none none e f s h =
      rw (e, f) (refl, record { tables = t; quiet_engine = refl; mirror = h })
  load_agrees a m t none (some y) e f s h = absurd s
  load_agrees a m t (some x) none e f s h = absurd s
  load_agrees a m t (some x) (some y) e f s h =
      rw (e, f, s) (refl, record { tables = t; quiet_engine = refl; mirror = h })

  agrees :
      (call : SessionCall Session) (m : MemorySessionStore Session) (t : SignalTables)
      → Mirror (address_key decimal) Same t.sessions m.sessions
      → Agree (in_memory call m) (in_sqlite call (quiet t))
  unfolding answer Peers.load_session Sessions.load_session Peers.store_session
      Sessions.store_session Peers.session_count Sessions.session_count Peers.clear_all_sessions
      Sessions.clear_all_sessions Peers.delete_session Sessions.delete_session statement ◌>>=◌
  agrees (load a) m t h =
      load_agrees a m t (lookup a t.sessions) (lookup (address_key decimal a) m.sessions) refl refl
        (lookup-Mirror (address_key decimal) Same (address_key_apart decimal decimal_laws) a
          t.sessions m.sessions h)
        h
  agrees (store now a s) m t h = rw (laws.serialize_lem s) (
    refl,
    record {
      tables = _;
      quiet_engine = refl;
      mirror =
          insert-Mirror (address_key decimal) Same (address_key_apart decimal decimal_laws) a _ s
            t.sessions m.sessions (laws.deserialize_lem s) h;
    },
  )
  agrees count m t h = (
    ap (λ n. ok (counted n))
        (sym (length-Mirror (address_key decimal) Same t.sessions m.sessions h)),
    record { tables = t; quiet_engine = refl; mirror = h },
  )
  agrees clear_all m t h = (refl, record { tables = _; quiet_engine = refl; mirror = tt })
  agrees (delete a) m t h = (
    refl,
    record {
      tables = _;
      quiet_engine = refl;
      mirror =
          remove-Mirror (address_key decimal) Same (address_key_apart decimal decimal_laws) a
            t.sessions m.sessions h;
    },
  )

  stores_simulate : Simulates (in_memory) in_sqlite Matches
  stores_simulate call m c h = rw h.quiet_engine (agrees call m h.tables h.mirror)

  -- Where a session that was serialized is read back, and the text of a device id tells the ids apart
  -- and has no colon: a new memory store and a SQLite store whose table of sessions is empty and
  -- whose engine refuses nothing give the same answers to any sequence of calls.
  pub session_stores_agree :
      (calls : List (SessionCall Session)) (tables : SignalTables)
      → tables.sessions ≡ []
      → trace (answer (memory_session_store decimal)) (record { sessions = [] }) calls
        ≡ trace (answer (sqlite_session_store deserialize serialize)) (quiet tables) calls
  session_stores_agree calls tables empty =
      trace-Simulates (in_memory) in_sqlite Matches stores_simulate calls (record { sessions = [] })
        (quiet tables) (record { tables = tables; quiet_engine = refl; mirror = rw empty tt })
