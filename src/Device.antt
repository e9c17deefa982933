-- ===== src/Device.antt =====
-- The one database of an instance of `Lotl` (src/lib.rs), whose connection all components share.
use lotl.Exec.{Exec}
use lotl.Sql.{Connection, Part}
use lotl.Database.{Database}
use lotl.DbConnection.{SchemaInfo}
use lotl.Sqlite.Tables.{SignalTables}

pub record Tables : Type 0 where
  pub signal : SignalTables
  pub app : Database
  pub schema_info : SchemaInfo

-- A method that works on the shared connection.
abbrev pub Shared : Type 0 → Type 0
Shared A = Exec (Connection Tables) A

abbrev pub signal_part : Part Tables SignalTables
signal_part = record { get = λ t. t.signal; put = λ u t. record t { signal = u } }

abbrev pub app_part : Part Tables Database
app_part = record { get = λ t. t.app; put = λ u t. record t { app = u } }

abbrev pub schema_part : Part Tables SchemaInfo
schema_part = record { get = λ t. t.schema_info; put = λ u t. record t { schema_info = u } }
