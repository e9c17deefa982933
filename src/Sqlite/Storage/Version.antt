-- ===== src/Sqlite/Storage/Version.antt =====
-- The schema version that src/db_connection.rs reads and writes, over the starts that run
-- `initialize_schema` of src/signal_storage.rs.
use lotl.Prelude.{
  ℕ, suc, ◌+◌, ◌≡◌, refl, ap, ◌∙◌, none, some, List, [], ◌∷◌, ◌++◌, map, length, length-append,
  arith,
}
use lotl.Prelude.Int.{ℤ, pos}
use lotl.Exec.{ok, ◌>>=◌}
use lotl.Sql.{Connection, quiet, statement, within}
use lotl.DbConnection.{SchemaInfo, SchemaRow, get_schema_version, update_schema_version}
use lotl.Device.{Tables, schema_part}
use lotl.Sqlite.Storage.{new, initialize_schema}

-- A new storage is set up on the connection once for each time, as each start of an instance does.
unfoldable pub set_up_again : List ℕ → Connection Tables → Connection Tables
set_up_again [] c = c
set_up_again (now ∷ times) c = set_up_again times (initialize_schema now (new c)).1.connection

-- The rows of a created table.
abbrev rows_of : SchemaInfo → List SchemaRow
rows_of none = []
rows_of (some rows) = rows

abbrev pub row_count : Connection Tables → ℕ
row_count c = length (rows_of c.tables.schema_info)

-- A connection to these tables that have the schema rows.
abbrev pub versioned : Tables → List SchemaRow → Connection Tables
versioned t rows = quiet (record t { schema_info = some rows })

-- A set-up adds a row and keeps the first.
set_up_once :
    (now : ℕ) (t : Tables) (rows : List SchemaRow)
    → (initialize_schema now (new (versioned t rows))).1.connection
      ≡ versioned t (rows ++ record { version = pos 1; updated_at = now } ∷ [])
unfolding initialize_schema within statement ◌>>=◌
set_up_once now t rows = refl

version_read :
    (times : List ℕ) (t : Tables) (r : SchemaRow) (rows : List SchemaRow)
    → (within schema_part get_schema_version (set_up_again times (versioned t (r ∷ rows)))).0
      ≡ ok r.version
unfolding set_up_again get_schema_version within statement
version_read [] t r rows = refl
version_read (now ∷ times) t r rows =
    ap (λ c. (within schema_part get_schema_version (set_up_again times c)).0)
      (set_up_once now t (r ∷ rows))
    ∙ version_read times t r _

rows_counted :
    (times : List ℕ) (t : Tables) (rows : List SchemaRow)
    → row_count (set_up_again times (versioned t rows)) ≡ length rows + length times
unfolding set_up_again
rows_counted [] t rows = omega arith
rows_counted (now ∷ times) t rows =
    let row : SchemaRow = record { version = pos 1; updated_at = now } in
    ap (λ c. row_count (set_up_again times c)) (set_up_once now t rows)
    ∙ rows_counted times t (rows ++ row ∷ [])
    ∙ omega (arith, length-append rows (row ∷ []))

length-map : {A B : Type 0} (f : A → B) (l : List A) → length (map f l) ≡ length l
length-map f [] = refl
length-map f (x ∷ l) = ap suc (length-map f l)

-- With an engine that refuses nothing and a table of versions that has a row: the version that
-- update_schema_version writes is read back, however often initialize_schema of a new storage runs on
-- the database after it, and each such run adds a row.
pub get_schema_version-update_schema_version :
    (now : ℕ) (version : ℤ) (t : Tables) (r : SchemaRow) (rows : List SchemaRow) (times : List ℕ)
    → ((within schema_part get_schema_version (
          set_up_again times
            (within schema_part (update_schema_version now version) (versioned t (r ∷ rows))).1)).0
        ≡ ok version)
      × (row_count (
            set_up_again times
              (within schema_part (update_schema_version now version) (versioned t (r ∷ rows))).1)
          ≡ suc (length rows) + length times)
unfolding update_schema_version within statement
get_schema_version-update_schema_version now version t r rows times =
    let row : SchemaRow = record { version = version; updated_at = now } in
    let written : List SchemaRow = map (λ old. row) rows in
    (
      version_read times t row written,
      rows_counted times t (row ∷ written)
          ∙ omega (arith, length-map {A = SchemaRow} (λ old. row) rows),
    )
