-- ===== src/History/Store.antt =====
-- Storing a message: `get_or_create_conversation`, `update_conversation`, `store_incoming_message`
-- and `store_outgoing_message` of src/message_history.rs.
use lotl.Prelude.{ℕ, ◌+◌, String, Bool, true, false, List, if◌then◌else◌}
use lotl.Prelude.Int.{ℤ, pos}
use lotl.Errors.{database, query_returned_no_rows}
use lotl.Exec.{Result, ok, err, pure, raise, gets, caught, ◌>>=◌, ◌>>◌}
use lotl.Sql.{statement, create}
use lotl.Database.{Db, ConversationRow}
use lotl.History.Types.{text, message_type_as_i64, pending, delivery_status_as_i64}
use lotl.History.Statements.{
  has_id, select_conversation_id, insert_conversation, NewMessage, insert_message,
  update_conversations,
}

-- The two tables and their indexes.
unfoldable pub init_message_history_tables : Db (Unit {0})
init_message_history_tables = do create; create; create; create; create; create

-- `Err(QueryReturnedNoRows) => ...`: the arms of the match on the query's result
unfoldable pub id_or_new : String → Result ℕ → Db ℕ
id_or_new fingerprint (ok id) = pure id
id_or_new fingerprint (err (database query_returned_no_rows)) = do
  statement (insert_conversation fingerprint)
  gets (λ c. c.tables.last_insert_rowid)
id_or_new fingerprint (err e) = raise e

unfoldable pub get_or_create_conversation : String → Db ℕ
unfolding id_or_new
get_or_create_conversation fingerprint = do
  result ← caught (statement (select_conversation_id fingerprint))
  id_or_new fingerprint result

-- The two UPDATEs of `update_conversation`.
abbrev pub touched : ℤ → Bool → ConversationRow → ConversationRow
touched timestamp increment_unread c =
    if increment_unread
    then record c { last_message_timestamp = timestamp; unread_count = c.unread_count + 1 }
    else record c { last_message_timestamp = timestamp }

unfoldable pub update_conversation : ℕ → ℤ → Bool → Db (Unit {0})
update_conversation conversation_id timestamp increment_unread =
    statement (update_conversations (has_id conversation_id) (touched timestamp increment_unread))

-- The columns that the INSERT of an incoming message leaves out have their defaults.
abbrev pub incoming : ℕ → ℤ → List ℕ → Bool → Bool → NewMessage
incoming conversation_id timestamp plaintext was_prekey_message session_established = record {
  conversation_id = conversation_id;
  direction = pos 0;
  timestamp = timestamp;
  message_type = message_type_as_i64 text;
  content = plaintext;
  delivery_status = pos 0;
  was_prekey_message = was_prekey_message;
  session_established = session_established;
}

unfoldable pub store_incoming_message : String → ℤ → List ℕ → Bool → Bool → Db ℕ
unfolding get_or_create_conversation update_conversation
store_incoming_message fingerprint timestamp plaintext was_prekey_message session_established = do
  conversation_id ← get_or_create_conversation fingerprint
  statement (
      insert_message
        (incoming conversation_id timestamp plaintext was_prekey_message session_established))
  message_id ← gets (λ c. c.tables.last_insert_rowid)
  update_conversation conversation_id timestamp true
  pure message_id

abbrev pub outgoing : ℕ → ℤ → List ℕ → NewMessage
outgoing conversation_id timestamp plaintext = record {
  conversation_id = conversation_id;
  direction = pos 1;
  timestamp = timestamp;
  message_type = message_type_as_i64 text;
  content = plaintext;
  delivery_status = delivery_status_as_i64 pending;
  was_prekey_message = false;
  session_established = false;
}

unfoldable pub store_outgoing_message : String → ℤ → List ℕ → Db ℕ
unfolding get_or_create_conversation update_conversation
store_outgoing_message fingerprint timestamp plaintext = do
  conversation_id ← get_or_create_conversation fingerprint
  statement (insert_message (outgoing conversation_id timestamp plaintext))
  message_id ← gets (λ c. c.tables.last_insert_rowid)
  update_conversation conversation_id timestamp false
  pure message_id
