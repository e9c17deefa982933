-- ===== src/History/Manage.antt =====
-- The updates and deletions of src/message_history.rs.
use lotl.Prelude.{number_eq, string_eq, ℕ, String, Bool, false, ◌&&◌, ◌==◌}
use lotl.Prelude.Int.{ℤ, pos, negsuc, ltb_ℤ}
use lotl.Exec.{Result, ok, err, pure, caught, ◌>>=◌, ◌>>◌}
use lotl.Sql.{statement}
use lotl.Database.{Db, MessageRow}
use lotl.History.Types.{DeliveryStatus, delivery_status_as_i64}
use lotl.History.Statements.{
  is_with, has_id, has_message_id, is_in, select_conversation_id, update_conversations,
  update_messages, delete_messages, delete_conversation_row, count_messages,
}

unfoldable pub update_delivery_status : ℕ → DeliveryStatus → Db (Unit {0})
update_delivery_status message_id status = statement (
    update_messages (has_message_id message_id)
      (λ m. record m { delivery_status = delivery_status_as_i64 status }))

unfoldable pub mark_conversation_read : String → Db (Unit {0})
mark_conversation_read fingerprint =
    statement (update_conversations (is_with fingerprint) (λ c. record c { unread_count = 0 }))

-- direction = 0
abbrev pub is_incoming : MessageRow → Bool
is_incoming m = elim m.direction [ pos n ↦ n == 0 | negsuc n ↦ false ]

-- conversation_id = ?1 AND direction = 0 AND timestamp > ?2
abbrev pub is_unread_after : ℕ → ℤ → MessageRow → Bool
is_unread_after conversation_id up_to_timestamp m =
    is_in conversation_id m && is_incoming m && ltb_ℤ up_to_timestamp m.timestamp

unfoldable pub mark_conversation_read_up_to : String → ℤ → Db (Unit {0})
mark_conversation_read_up_to fingerprint up_to_timestamp = do
  conversation_id ← statement (select_conversation_id fingerprint)
  unread_count ← statement (count_messages (is_unread_after conversation_id up_to_timestamp))
  statement (
      update_conversations (has_id conversation_id) (λ c. record c { unread_count = unread_count }))

unfoldable pub delete_message : ℕ → Db (Unit {0})
delete_message message_id = statement (delete_messages (has_message_id message_id))

-- `if let Ok(id) = ... { ... }`: any failure of the query passes for "no such conversation"
unfoldable pub delete_found : Result ℕ → Db (Unit {0})
delete_found (ok id) = do
  statement (delete_messages (is_in id))
  statement (delete_conversation_row id)
delete_found (err e) = pure tt

unfoldable pub delete_conversation : String → Db (Unit {0})
unfolding delete_found
delete_conversation fingerprint = do
  result ← caught (statement (select_conversation_id fingerprint))
  delete_found result

unfoldable pub archive_conversation : String → Bool → Db (Unit {0})
archive_conversation fingerprint archived =
    statement (update_conversations (is_with fingerprint) (λ c. record c { archived = archived }))
