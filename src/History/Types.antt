-- ===== src/History/Types.antt =====
-- The enums and records of src/message_history.rs.
use lotl.Prelude.{ℕ, zero, suc, String, Bool, List}
use lotl.Prelude.Int.{ℤ, pos}
use lotl.Types.{MessageDirection, sent, received}
use lotl.Database.{MessageRow}

pub data MessageType : Type 0 where
  text bundle_announcement system : MessageType

-- `impl From<i64> for MessageType`
unfoldable pub message_type_from : ℤ → MessageType
message_type_from (pos zero) = text
message_type_from (pos (suc zero)) = bundle_announcement
message_type_from (pos (suc (suc zero))) = system
message_type_from _ = text

-- `message_type as i64`
unfoldable pub message_type_as_i64 : MessageType → ℤ
message_type_as_i64 text = pos 0
message_type_as_i64 bundle_announcement = pos 1
message_type_as_i64 system = pos 2

pub data DeliveryStatus : Type 0 where
  pending sent_to_transport delivered failed : DeliveryStatus

-- `impl From<i64> for DeliveryStatus`
unfoldable pub delivery_status_from : ℤ → DeliveryStatus
delivery_status_from (pos zero) = pending
delivery_status_from (pos (suc zero)) = sent_to_transport
delivery_status_from (pos (suc (suc zero))) = delivered
delivery_status_from (pos (suc (suc (suc zero)))) = failed
delivery_status_from _ = pending

-- `status as i64`
unfoldable pub delivery_status_as_i64 : DeliveryStatus → ℤ
delivery_status_as_i64 pending = pos 0
delivery_status_as_i64 sent_to_transport = pos 1
delivery_status_as_i64 delivered = pos 2
delivery_status_as_i64 failed = pos 3

pub record StoredMessage : Type 0 where
  pub id : ℕ
  pub conversation_id : ℕ
  pub fingerprint : String
  pub direction : MessageDirection
  pub timestamp : ℤ
  pub message_type : MessageType
  pub plaintext : List ℕ
  pub delivery_status : DeliveryStatus
  pub was_prekey_message : Bool
  pub session_established : Bool

pub record ExtendedConversationRecord : Type 0 where
  pub id : ℕ
  pub fingerprint : String
  pub last_message_timestamp : ℤ
  pub unread_count : ℕ
  pub archived : Bool

-- `if row.get::<_, i64>(..)? == 0 { Received } else { Sent }`
unfoldable pub direction_from : ℤ → MessageDirection
direction_from (pos zero) = received
direction_from _ = sent

-- The closure that reads a row of `messages`; the fingerprint comes from the conversation.
unfoldable pub stored_message : String → MessageRow → StoredMessage
stored_message fingerprint m = record {
  id = m.id;
  conversation_id = m.conversation_id;
  fingerprint = fingerprint;
  direction = direction_from m.direction;
  timestamp = m.timestamp;
  message_type = message_type_from m.message_type;
  plaintext = m.content;
  delivery_status = delivery_status_from m.delivery_status;
  was_prekey_message = m.was_prekey_message;
  session_established = m.session_established;
}
