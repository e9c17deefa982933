-- ===== src/History/Read.antt =====
-- The queries of src/message_history.rs. ORDER BY is the engine's: a function that a property
-- takes as a parameter, since SQL leaves the order of equal timestamps open.
use lotl.Prelude.{
  number_eq, ℕ, ◌%◌, ◌^◌, String, Bool, not, Option, none, some, List, [], ◌∷◌, map, ◌==◌,
  if◌then◌else◌, first_where, where_rows, take, drop,
}
use lotl.Errors.{with_number, storage, database, query_returned_no_rows}
use lotl.Exec.{Result, ok, err, pure, raise, caught, ◌>>=◌}
use lotl.Sql.{statement}
use lotl.Types.{ConversationRecord}
use lotl.Database.{Database, Db, ConversationRow, MessageRow, one_row}
use lotl.History.Types.{StoredMessage, ExtendedConversationRecord, stored_message}
use lotl.History.Statements.{is_with, has_id, is_in, select_conversation_id}

-- messages m JOIN conversations c ON m.conversation_id = c.id WHERE m.id = ?1, the first row
unfoldable pub join_first : ℕ → List ConversationRow → List MessageRow → Option StoredMessage
join_first id cs [] = none
join_first id cs (m ∷ ms) =
    let rest = join_first id cs ms in
    if m.id == id
    then elim (first_where (has_id m.conversation_id) cs) [
      | none ↦ rest
      | some c ↦ some (stored_message c.fingerprint m)
    ]
    else rest

unfoldable pub select_message : ℕ → Database → Result StoredMessage × Database
unfolding join_first
select_message id d = (one_row (join_first id d.conversations d.messages), d)

unfoldable pub found_message : ℕ → Result StoredMessage → Db StoredMessage
found_message message_id (ok msg) = pure msg
found_message message_id (err (database query_returned_no_rows)) =
    raise (storage (with_number "Message not found: " message_id))
found_message message_id (err e) = raise e

unfoldable pub get_message : ℕ → Db StoredMessage
unfolding found_message select_message
get_message message_id = do
  result ← caught (statement (select_message message_id))
  found_message message_id result

-- `count as u32`
abbrev pub as_u32 : ℕ → ℕ
as_u32 n = n % 2 ^ 32

unfoldable pub unread_of : Result ℕ → Db ℕ
unread_of (ok count) = pure (as_u32 count)
unread_of (err (database query_returned_no_rows)) = pure 0
unread_of (err e) = raise e

unfoldable pub select_unread_count : String → Database → Result ℕ × Database
select_unread_count fingerprint d = elim (first_where (is_with fingerprint) d.conversations) [
  | none ↦ (one_row none, d)
  | some c ↦ (ok c.unread_count, d)
]

unfoldable pub get_unread_count : String → Db ℕ
unfolding unread_of
get_unread_count fingerprint = do
  result ← caught (statement (select_unread_count fingerprint))
  unread_of result

module _ (order_by_timestamp_desc : List MessageRow → List MessageRow) where
  -- SELECT ... WHERE conversation_id = ?1 ORDER BY timestamp DESC LIMIT ?2 OFFSET ?3
  unfoldable pub select_messages :
      String → ℕ → ℕ → ℕ → Database → Result (List StoredMessage) × Database
  select_messages fingerprint conversation_id limit offset d = (
    ok (
        map (stored_message fingerprint) (
          take limit (
            drop offset
              (order_by_timestamp_desc (where_rows (is_in conversation_id) d.messages))))),
    d,
  )

  unfoldable pub messages_of : String → ℕ → ℕ → Result ℕ → Db (List StoredMessage)
  messages_of fingerprint limit offset (ok id) =
      statement (select_messages fingerprint id limit offset)
  messages_of fingerprint limit offset (err (database query_returned_no_rows)) = pure []
  messages_of fingerprint limit offset (err e) = raise e

  unfoldable pub get_conversation_messages : String → ℕ → ℕ → Db (List StoredMessage)
  unfolding messages_of
  get_conversation_messages fingerprint limit offset = do
    result ← caught (statement (select_conversation_id fingerprint))
    messages_of fingerprint limit offset result

abbrev pub extended_record : ConversationRow → ExtendedConversationRecord
extended_record c = record {
  id = c.id;
  fingerprint = c.fingerprint;
  last_message_timestamp = c.last_message_timestamp;
  unread_count = as_u32 c.unread_count;
  archived = c.archived;
}

abbrev pub simple_record : ExtendedConversationRecord → ConversationRecord
simple_record e = record {
  id = e.id;
  fingerprint = e.fingerprint;
  last_message_timestamp = e.last_message_timestamp;
}

module _ (order_by_last_message_desc : List ConversationRow → List ConversationRow) where
  unfoldable pub get_conversations : Bool → Db (List ExtendedConversationRecord)
  get_conversations include_archived = statement (λ d. (
    ok (
        map extended_record (
          order_by_last_message_desc (
            if include_archived
            then d.conversations
            else where_rows (λ c. not c.archived) d.conversations))),
    d,
  ))

  unfoldable pub list_conversations : Bool → Db (List ConversationRecord)
  unfolding get_conversations
  list_conversations include_archived = do
    extended ← get_conversations include_archived
    pure (map simple_record extended)
