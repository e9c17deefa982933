-- ===== src/Database.antt =====
-- The tables that contacts, message history and Nostr identities share in one SQLite database, as
-- the CREATE TABLE statements of src/message_history.rs, src/contact_manager.rs and
-- src/integrations/nostr/storage.rs lay them out. Row ids are far below 2^63.
use lotl.Prelude.{ℕ, String, Bool, Option, none, some, List, []}
use lotl.Prelude.Int.{ℤ}
use lotl.Errors.{database, query_returned_no_rows, constraint_violation}
use lotl.Exec.{Result, ok, err, Exec}
use lotl.Sql.{Connection}
use lotl.Types.{ContactInfo}

pub record ConversationRow : Type 0 where
  pub id : ℕ
  pub fingerprint : String
  pub last_message_timestamp : ℤ
  pub unread_count : ℕ
  pub archived : Bool

pub record MessageRow : Type 0 where
  pub id : ℕ
  pub conversation_id : ℕ
  pub direction : ℤ
  pub timestamp : ℤ
  pub message_type : ℤ
  pub content : List ℕ
  pub delivery_status : ℤ
  pub was_prekey_message : Bool
  pub session_established : Bool

pub record NostrRow : Type 0 where
  pub fingerprint : String
  pub nostr_pubkey : String
  pub derivation_context : String

-- A `_seq` is AUTOINCREMENT's memory of the greatest id ever given. `foreign_keys` says whether the
-- connection enforces the FOREIGN KEY clauses (the build of SQLite decides it).
pub record Database : Type 0 where
  pub contacts : List ContactInfo
  pub conversations : List ConversationRow
  pub conversations_seq : ℕ
  pub messages : List MessageRow
  pub messages_seq : ℕ
  pub nostr_identities : List NostrRow
  pub last_insert_rowid : ℕ
  pub foreign_keys : Bool

-- A fresh database, all tables created.
abbrev pub empty_database : Bool → Database
empty_database fk = record {
  contacts = [];
  conversations = [];
  conversations_seq = 0;
  messages = [];
  messages_seq = 0;
  nostr_identities = [];
  last_insert_rowid = 0;
  foreign_keys = fk;
}

-- A method that works on the connection.
abbrev pub Db : Type 0 → Type 0
Db A = Exec (Connection Database) A

-- What `query_row` makes of the first row of the result.
abbrev pub one_row {ℓ} : {A : Type ℓ} → Option A → Result A
one_row none = err (database query_returned_no_rows)
one_row (some a) = ok a

abbrev pub constraint_failed {ℓ} : {A : Type ℓ} → Result A
constraint_failed = err (database constraint_violation)
