-- ===== src/History/Inbox.antt =====
-- What src/message_history.rs promises of its tables: a box for a fingerprint, with its messages, its
-- unread count and its state, and what each call makes of the boxes. The ids of conversations, the
-- codes of the enums and the tables themselves are forgotten.
pub mod Shown
pub mod Tables
pub mod Deposit
pub mod Changes
pub mod Refines
pub mod Reads
pub mod Listing
use lotl.Prelude.{
  string_eq, number_eq, ℕ, suc, ◌+◌, String, Bool, true, false, ◌&&◌, Option, none, some, List, [],
  ◌∷◌, ◌++◌, ◌==◌, map, if◌then◌else◌, where_rows, update_where, delete_where, count_where,
}
use mathlib.Core.Option as Option
use lotl.Prelude.Int.{ℤ, pos, ltb_ℤ}
use lotl.Types.{MessageDirection, received, sent}
use lotl.Database.{Database, ConversationRow, MessageRow}
use lotl.History.Types.{
  MessageType, text, message_type_from, DeliveryStatus, pending, delivery_status_from,
  direction_from,
}
use lotl.History.Statements.{is_in}
use lotl.History.Read.{as_u32}
use lotl.History.Calls.{
  HistoryCall, incoming, outgoing, set_status, mark_read, mark_read_up_to, remove_message,
  remove_conversation, archive,
}
use lotl.History.Opened.{conversation_of}

pub record Entry : Type 0 where
  pub id : ℕ
  pub direction : MessageDirection
  pub timestamp : ℤ
  pub message_type : MessageType
  pub plaintext : List ℕ
  pub delivery_status : DeliveryStatus
  pub was_prekey_message : Bool
  pub session_established : Bool

pub record Box : Type 0 where
  pub entries : List Entry
  pub last_message_timestamp : ℤ
  pub unread_count : ℕ
  pub archived : Bool

-- The last message id given, and the boxes.
pub record Inbox : Type 0 where
  pub given : ℕ
  pub boxes : String → Option Box

abbrev pub new_box : Option Box → Box
new_box (some b) = b
new_box none = record {
  entries = [];
  last_message_timestamp = pos 0;
  unread_count = 0;
  archived = false;
}

abbrev pub put : String → Option Box → (String → Option Box) → String → Option Box
put fp b boxes fp' = if fp == fp' then b else boxes fp'

abbrev pub has_entry_id : ℕ → Entry → Bool
has_entry_id id e = e.id == id

abbrev pub is_received : MessageDirection → Bool
is_received received = true
is_received sent = false

abbrev pub is_unread : ℤ → Entry → Bool
is_unread up_to e = is_received e.direction && ltb_ℤ up_to e.timestamp

abbrev pub received_in : Entry → Box → Box
received_in e b = record {
  entries = b.entries ++ e ∷ [];
  last_message_timestamp = e.timestamp;
  unread_count = b.unread_count + 1;
  archived = b.archived;
}

abbrev pub sent_in : Entry → Box → Box
sent_in e b = record {
  entries = b.entries ++ e ∷ [];
  last_message_timestamp = e.timestamp;
  unread_count = b.unread_count;
  archived = b.archived;
}

abbrev pub text_entry : ℕ → MessageDirection → ℤ → List ℕ → Bool → Bool → Entry
text_entry id direction timestamp plaintext prekey session = record {
  id = id;
  direction = direction;
  timestamp = timestamp;
  message_type = text;
  plaintext = plaintext;
  delivery_status = pending;
  was_prekey_message = prekey;
  session_established = session;
}

-- A change of one box, if it is there.
abbrev pub at : String → (Box → Box) → Inbox → Inbox
at fp f s = record s { boxes = put fp (Option.map f (s.boxes fp)) s.boxes }

-- A change of the entries of every box.
abbrev pub everywhere : (List Entry → List Entry) → Inbox → Inbox
everywhere f s = record s {
  boxes = λ fp. Option.map (λ (b : Box). record b { entries = f b.entries }) (s.boxes fp);
}

abbrev pub count_unread : ℤ → Box → Box
count_unread up_to b = record b { unread_count = count_where (is_unread up_to) b.entries }

abbrev pub step : Inbox → HistoryCall → Inbox
step s (incoming fp t content prekey session) = record {
  given = suc s.given;
  boxes =
      put fp
        (some (
          received_in (text_entry (suc s.given) received t content prekey session)
            (new_box (s.boxes fp))))
        s.boxes;
}
step s (outgoing fp t content) = record {
  given = suc s.given;
  boxes =
      put fp
        (some
          (sent_in (text_entry (suc s.given) sent t content false false) (new_box (s.boxes fp))))
        s.boxes;
}
step s (set_status id status) =
    everywhere (update_where (has_entry_id id) (λ e. record e { delivery_status = status })) s
step s (mark_read fp) = at fp (λ b. record b { unread_count = 0 }) s
step s (mark_read_up_to fp t) = at fp (count_unread t) s
step s (remove_message id) = everywhere (delete_where (has_entry_id id)) s
step s (remove_conversation fp) = record s { boxes = put fp none s.boxes }
step s (archive fp archived) = at fp (λ b. record b { archived = archived }) s

abbrev pub steps : Inbox → List HistoryCall → Inbox
steps s [] = s
steps s (call ∷ rest) = steps (step s call) rest

-- What the tables stand for.
abbrev pub entry : MessageRow → Entry
entry m = record {
  id = m.id;
  direction = direction_from m.direction;
  timestamp = m.timestamp;
  message_type = message_type_from m.message_type;
  plaintext = m.content;
  delivery_status = delivery_status_from m.delivery_status;
  was_prekey_message = m.was_prekey_message;
  session_established = m.session_established;
}

abbrev pub filled : List Entry → ConversationRow → Box
filled entries c = record {
  entries = entries;
  last_message_timestamp = c.last_message_timestamp;
  unread_count = c.unread_count;
  archived = c.archived;
}

abbrev pub box_of : List MessageRow → ConversationRow → Box
box_of ms c = filled (map entry (where_rows (is_in c.id) ms)) c

abbrev pub box_in : String → Database → Option Box
box_in fp d = Option.map (box_of d.messages) (conversation_of fp d)

abbrev pub inbox : Database → Inbox
inbox d = record { given = d.messages_seq; boxes = λ fp. box_in fp d }

abbrev pub unread_of : Option Box → ℕ
unread_of none = 0
unread_of (some b) = as_u32 b.unread_count
