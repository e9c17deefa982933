-- ===== src/DbConnection.antt =====
-- Opening the database and its schema version: src/db_connection.rs. A schema version is an i32.
use lotl.Prelude.{
  string_eq, ℕ, String, ◌==◌, ◌++◌, Option, none, some, List, [], ◌∷◌, map, if◌then◌else◌,
}
use lotl.Prelude.Int.{ℤ, pos}
use lotl.Errors.{database, sqlite_failure, query_returned_no_rows}
use lotl.Exec.{Result, ok, err, Exec, pure, lift, ◌>>=◌, ◌>>◌}
use lotl.Sql.{Connection, statement}
use lotl.KeyFile.{Disk, get_or_create_db_key}

pub record SchemaRow : Type 0 where
  pub version : ℤ
  pub updated_at : ℕ

-- The table `schema_info`, which has no primary key, if it was created; its rows stand in the
-- order of a scan.
abbrev pub SchemaInfo : Type 0
SchemaInfo = Option (List SchemaRow)

-- SQLITE_ERROR, "no such table"
abbrev no_such_table {ℓ} : {A : Type ℓ} → Result A
no_such_table = err (database (sqlite_failure 1))

-- CREATE TABLE IF NOT EXISTS schema_info
abbrev pub create_schema_info : SchemaInfo → Result (Unit {0}) × SchemaInfo
create_schema_info none = (ok tt, some [])
create_schema_info (some rows) = (ok tt, some rows)

-- INSERT OR IGNORE INTO schema_info (version) VALUES (1): no clause of the table refuses a row.
abbrev pub insert_version : ℕ → SchemaInfo → Result (Unit {0}) × SchemaInfo
insert_version now none = (no_such_table, none)
insert_version now (some rows) =
    (ok tt, some (rows ++ record { version = pos 1; updated_at = now } ∷ []))

abbrev first_version : List SchemaRow → Result ℤ
first_version [] = err (database query_returned_no_rows)
first_version (row ∷ rows) = ok row.version

-- SELECT version FROM schema_info, the first row
abbrev pub select_version : SchemaInfo → Result ℤ × SchemaInfo
select_version none = (no_such_table, none)
select_version (some rows) = (first_version rows, some rows)

-- UPDATE schema_info SET version = ?1, of every row
abbrev pub set_version : ℕ → ℤ → SchemaInfo → Result (Unit {0}) × SchemaInfo
set_version now version none = (no_such_table, none)
set_version now version (some rows) =
    (ok tt, some (map (λ row. record { version = version; updated_at = now }) rows))

-- `now` is what SQLite's strftime('%s', 'now') reads.
unfoldable pub initialize_schema_info : ℕ → Exec (Connection SchemaInfo) ℤ
initialize_schema_info now = do
  statement create_schema_info
  statement (insert_version now)
  statement select_version

unfoldable pub get_schema_version : Exec (Connection SchemaInfo) ℤ
get_schema_version = statement select_version

unfoldable pub update_schema_version : ℕ → ℤ → Exec (Connection SchemaInfo) (Unit {0})
update_schema_version now version = statement (set_version now version)

-- PRAGMA optimize, which changes no row
unfoldable pub optimize : {T : Type 0} → Exec (Connection T) (Unit {0})
optimize = statement (λ t. (ok tt, t))

-- What the code calls of rusqlite to open a database; a pragma gives the connection that it leaves.
pub record Rusqlite (T : Type 0) : Type 0 where
  pub open_path : String → Result (Connection T)
  pub set_key : List ℕ → Connection T → Result (Connection T)
  pub set_wal : Connection T → Result (Connection T)

-- The key that `get_or_create_db_key` would generate is an argument.
unfoldable pub new : {T : Type 0} → Rusqlite T → String → List ℕ → Exec Disk (Connection T)
new sqlite db_path new_key = do
  connection ← lift (sqlite.open_path db_path)
  keyed ←
      (if db_path == ":memory:"
        then pure connection
        else do key ← get_or_create_db_key db_path new_key; lift (sqlite.set_key key connection))
  lift (sqlite.set_wal keyed)
