-- ===== src/History/Statements.antt =====
-- The SQL statements of src/message_history.rs that change or look up a conversation or a message.
use lotl.Prelude.{
  number_eq, string_eq, ℕ, suc, String, Bool, false, not, ◌&&◌, none, some, List, [], ◌∷◌, ◌++◌,
  ◌==◌, if◌then◌else◌, first_where, any_where, update_where, delete_where, count_where,
}
use lotl.Prelude.Int.{ℤ, pos}
use lotl.Exec.{Result, ok}
use lotl.Types.{ContactInfo}
use lotl.Database.{Database, ConversationRow, MessageRow, one_row, constraint_failed}

abbrev pub is_with : String → ConversationRow → Bool
is_with fingerprint c = c.fingerprint == fingerprint

abbrev pub has_id : ℕ → ConversationRow → Bool
has_id id c = c.id == id

abbrev pub has_message_id : ℕ → MessageRow → Bool
has_message_id id m = m.id == id

abbrev pub is_in : ℕ → MessageRow → Bool
is_in conversation_id m = m.conversation_id == conversation_id

-- SELECT id FROM conversations WHERE fingerprint = ?1
unfoldable pub select_conversation_id : String → Database → Result ℕ × Database
select_conversation_id fingerprint d = elim (first_where (is_with fingerprint) d.conversations) [
  | none ↦ (one_row none, d)
  | some c ↦ (ok c.id, d)
]

abbrev pub new_conversation : ℕ → String → ConversationRow
new_conversation id fingerprint = record {
  id = id;
  fingerprint = fingerprint;
  last_message_timestamp = pos 0;
  unread_count = 0;
  archived = false;
}

abbrev pub has_contact : String → ContactInfo → Bool
has_contact fingerprint c = c.fingerprint == fingerprint

-- INSERT INTO conversations (fingerprint, last_message_timestamp) VALUES (?1, 0), which the UNIQUE
-- and, if enforced, the FOREIGN KEY clause may refuse
unfoldable pub insert_conversation : String → Database → Result (Unit {0}) × Database
insert_conversation fingerprint d =
    if any_where (is_with fingerprint) d.conversations
    then (constraint_failed, d)
    else if d.foreign_keys && not (any_where (has_contact fingerprint) d.contacts)
    then (constraint_failed, d)
    else (
      ok tt,
      record d {
        conversations =
            d.conversations ++ new_conversation (suc d.conversations_seq) fingerprint ∷ [];
        conversations_seq = suc d.conversations_seq;
        last_insert_rowid = suc d.conversations_seq;
      },
    )

-- The values of an INSERT INTO messages, all but the id.
pub record NewMessage : Type 0 where
  pub conversation_id : ℕ
  pub direction : ℤ
  pub timestamp : ℤ
  pub message_type : ℤ
  pub content : List ℕ
  pub delivery_status : ℤ
  pub was_prekey_message : Bool
  pub session_established : Bool

abbrev pub message_row : ℕ → NewMessage → MessageRow
message_row id m = record {
  id = id;
  conversation_id = m.conversation_id;
  direction = m.direction;
  timestamp = m.timestamp;
  message_type = m.message_type;
  content = m.content;
  delivery_status = m.delivery_status;
  was_prekey_message = m.was_prekey_message;
  session_established = m.session_established;
}

unfoldable pub insert_message : NewMessage → Database → Result (Unit {0}) × Database
insert_message m d =
    if d.foreign_keys && not (any_where (has_id m.conversation_id) d.conversations)
    then (constraint_failed, d)
    else (
      ok tt,
      record d {
        messages = d.messages ++ message_row (suc d.messages_seq) m ∷ [];
        messages_seq = suc d.messages_seq;
        last_insert_rowid = suc d.messages_seq;
      },
    )

-- UPDATE conversations SET ... WHERE ...; the number of rows is not read
unfoldable pub update_conversations :
    (ConversationRow → Bool)
    → (ConversationRow → ConversationRow)
    → Database
    → Result (Unit {0}) × Database
update_conversations p f d = (ok tt, record d { conversations = update_where p f d.conversations })

-- UPDATE messages SET ... WHERE ...
unfoldable pub update_messages :
    (MessageRow → Bool) → (MessageRow → MessageRow) → Database → Result (Unit {0}) × Database
update_messages p f d = (ok tt, record d { messages = update_where p f d.messages })

-- DELETE FROM messages WHERE ...
unfoldable pub delete_messages : (MessageRow → Bool) → Database → Result (Unit {0}) × Database
delete_messages p d = (ok tt, record d { messages = delete_where p d.messages })

-- DELETE FROM conversations WHERE id = ?1, with ON DELETE CASCADE where it is enforced
unfoldable pub delete_conversation_row : ℕ → Database → Result (Unit {0}) × Database
delete_conversation_row id d = (
  ok tt,
  record d {
    conversations = delete_where (has_id id) d.conversations;
    messages = if d.foreign_keys then delete_where (is_in id) d.messages else d.messages;
  },
)

-- SELECT COUNT(*) FROM messages WHERE ...
unfoldable pub count_messages : (MessageRow → Bool) → Database → Result ℕ × Database
count_messages p d = (ok (count_where p d.messages), d)
