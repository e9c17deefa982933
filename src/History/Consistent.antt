-- ===== src/History/Consistent.antt =====
-- The invariant of the tables of conversations and messages, and the statements that keep it.
use lotl.Prelude.{
  number_eq, string_eq, ℕ, suc, ◌≤◌, ◌≡◌, String, Bool, true, false, eq_iff, arith, List, [], ◌∷◌,
  ◌++◌, All, any_where, delete_where, Bool-cases, inl, inr, not, ◌&&◌, if◌then◌else◌,
}
use lotl.Prelude.Rows.{
  Distinct, All-append_one, All-update, All-delete, All-mono, any_where-append_one,
  any_where-update, any_where-delete, All-of_none, Distinct-append_one, Distinct-update,
  Distinct-delete,
}
use lotl.Database.{Database, ConversationRow, MessageRow, empty_database}
use lotl.History.Statements.{
  has_id, is_with, is_in, new_conversation, NewMessage, message_row, insert_conversation,
  insert_message, update_conversations, update_messages, delete_messages, delete_conversation_row,
  has_contact,
}

abbrev pub conversation_id_of : ConversationRow → ℕ
conversation_id_of c = c.id

abbrev pub fingerprint_of : ConversationRow → String
fingerprint_of c = c.fingerprint

abbrev pub message_id_of : MessageRow → ℕ
message_id_of m = m.id

abbrev pub IsOwned : List ConversationRow → MessageRow → Type 0
IsOwned cs m = any_where (has_id m.conversation_id) cs ≡ true

-- Ids are distinct and were given by AUTOINCREMENT, a contact has one conversation at most, and
-- every message belongs to a conversation.
pub record IsConsistent (d : Database) : Type 0 where
  pub conversation_ids_given : All (λ c. c.id ≤ d.conversations_seq) d.conversations
  pub conversation_ids : Distinct conversation_id_of d.conversations
  pub fingerprints : Distinct fingerprint_of d.conversations
  pub message_ids_given : All (λ m. m.id ≤ d.messages_seq) d.messages
  pub message_ids : Distinct message_id_of d.messages
  pub owned : All (IsOwned d.conversations) d.messages

pub IsConsistent-empty : (fk : Bool) → IsConsistent (empty_database fk)
IsConsistent-empty fk = record {
  conversation_ids_given = tt;
  conversation_ids = tt;
  fingerprints = tt;
  message_ids_given = tt;
  message_ids = tt;
  owned = tt;
}

module _ (id : ℕ) (cs : List ConversationRow) where
  -- Messages of other conversations keep their conversation.
  IsOwned-elsewhere :
      (ms : List MessageRow)
      → All (λ m. is_in id m ≡ false) ms
      → All (IsOwned cs) ms
      → All (IsOwned (delete_where (has_id id) cs)) ms
  IsOwned-elsewhere [] gone owned = tt
  IsOwned-elsewhere (m ∷ ms) gone owned = (
    any_where-delete (has_id m.conversation_id) (has_id id) cs (λ c k. ground (arith, gone.0))
        owned.0,
    IsOwned-elsewhere ms gone.1 owned.1,
  )

module _ (d : Database) (h : IsConsistent d) where
  appended :
      (fp : String)
      → any_where (is_with fp) d.conversations ≡ false
      → IsConsistent (record d {
        conversations = d.conversations ++ new_conversation (suc d.conversations_seq) fp ∷ [];
        conversations_seq = suc d.conversations_seq;
        last_insert_rowid = suc d.conversations_seq;
      })
  appended fp new = record {
    conversation_ids_given =
        All-append_one _ d.conversations _
          (All-mono _ _ d.conversations (λ c k. omega arith) h.conversation_ids_given)
          (omega arith);
    conversation_ids =
        Distinct-append_one conversation_id_of d.conversations _
          (All-mono _ _ d.conversations (λ c k. omega arith) h.conversation_ids_given)
          h.conversation_ids;
    fingerprints =
        Distinct-append_one fingerprint_of d.conversations _
          (All-mono _ _ d.conversations (λ c k. ground (arith, eq_iff c.fingerprint fp))
            (All-of_none (is_with fp) d.conversations new))
          h.fingerprints;
    message_ids_given = h.message_ids_given;
    message_ids = h.message_ids;
    owned =
        All-mono _ _ d.messages
          (λ m k. any_where-append_one (has_id m.conversation_id) d.conversations _ k) h.owned;
  }

  pub insert_conversation-IsConsistent : (fp : String) → IsConsistent (insert_conversation fp d).1
  unfolding insert_conversation
  insert_conversation-IsConsistent fp = elim (Bool-cases (any_where (is_with fp) d.conversations)) [
    | inl old ↦ rw old h
    | inr new ↦
        rw new (elim (Bool-cases (d.foreign_keys && not (any_where (has_contact fp) d.contacts))) [
          | inl refused ↦ rw refused h
          | inr fine ↦ rw fine (appended fp new)
        ])
  ]

  pub insert_message-IsConsistent :
      (m : NewMessage)
      → any_where (has_id m.conversation_id) d.conversations ≡ true
      → IsConsistent (insert_message m d).1
  unfolding insert_message
  insert_message-IsConsistent m own =
      elim (Bool-cases
        (d.foreign_keys && not (any_where (has_id m.conversation_id) d.conversations))) [
          | inl refused ↦ rw refused h
          | inr fine ↦ rw fine stored
        ]
    where
      stored : IsConsistent (record d {
        messages = d.messages ++ message_row (suc d.messages_seq) m ∷ [];
        messages_seq = suc d.messages_seq;
        last_insert_rowid = suc d.messages_seq;
      })
      stored = record {
        conversation_ids_given = h.conversation_ids_given;
        conversation_ids = h.conversation_ids;
        fingerprints = h.fingerprints;
        message_ids_given =
            All-append_one _ d.messages _
              (All-mono _ _ d.messages (λ c k. omega arith) h.message_ids_given) (omega arith);
        message_ids =
            Distinct-append_one message_id_of d.messages _
              (All-mono _ _ d.messages (λ c k. omega arith) h.message_ids_given) h.message_ids;
        owned = All-append_one _ d.messages _ h.owned own;
      }

  -- An UPDATE that sets neither id nor fingerprint.
  pub update_conversations-IsConsistent :
      (p : ConversationRow → Bool) (f : ConversationRow → ConversationRow)
      → ((c : ConversationRow) → (f c).id ≡ c.id)
      → ((c : ConversationRow) → (f c).fingerprint ≡ c.fingerprint)
      → IsConsistent (update_conversations p f d).1
  unfolding update_conversations
  update_conversations-IsConsistent p f same_id same_fp = record {
    conversation_ids_given =
        All-update _ p f d.conversations (λ c k. rw (same_id c) k) h.conversation_ids_given;
    conversation_ids =
        Distinct-update conversation_id_of p f d.conversations same_id h.conversation_ids;
    fingerprints = Distinct-update fingerprint_of p f d.conversations same_fp h.fingerprints;
    message_ids_given = h.message_ids_given;
    message_ids = h.message_ids;
    owned =
        All-mono _ _ d.messages
          (λ m k.
            rw
              (any_where-update (has_id m.conversation_id) p f d.conversations
                (λ c. rw (same_id c)))
              k)
          h.owned;
  }

  -- An UPDATE of messages that sets neither id nor conversation.
  pub update_messages-IsConsistent :
      (p : MessageRow → Bool) (f : MessageRow → MessageRow)
      → ((m : MessageRow) → (f m).id ≡ m.id)
      → ((m : MessageRow) → (f m).conversation_id ≡ m.conversation_id)
      → IsConsistent (update_messages p f d).1
  unfolding update_messages
  update_messages-IsConsistent p f same_id same_conversation = record {
    conversation_ids_given = h.conversation_ids_given;
    conversation_ids = h.conversation_ids;
    fingerprints = h.fingerprints;
    message_ids_given = All-update _ p f d.messages (λ m k. rw (same_id m) k) h.message_ids_given;
    message_ids = Distinct-update message_id_of p f d.messages same_id h.message_ids;
    owned = All-update _ p f d.messages (λ m k. rw (same_conversation m) k) h.owned;
  }

  pub delete_messages-IsConsistent : (p : MessageRow → Bool) → IsConsistent (delete_messages p d).1
  unfolding delete_messages
  delete_messages-IsConsistent p = record {
    conversation_ids_given = h.conversation_ids_given;
    conversation_ids = h.conversation_ids;
    fingerprints = h.fingerprints;
    message_ids_given = All-delete _ p d.messages h.message_ids_given;
    message_ids = Distinct-delete message_id_of p d.messages h.message_ids;
    owned = All-delete _ p d.messages h.owned;
  }

  -- Deleting a conversation, cascading or not, once its messages are gone.
  pub delete_conversation_row-IsConsistent :
      (id : ℕ)
      → All (λ m. is_in id m ≡ false) d.messages
      → IsConsistent (delete_conversation_row id d).1
  unfolding delete_conversation_row
  delete_conversation_row-IsConsistent id gone =
      elim d.foreign_keys
        as (λ b. IsConsistent (record d {
          conversations = delete_where (has_id id) d.conversations;
          messages = if b then delete_where (is_in id) d.messages else d.messages;
        })) [
          | true ↦
              deleted (delete_where (is_in id) d.messages)
                (All-delete _ (is_in id) d.messages h.message_ids_given)
                (Distinct-delete message_id_of (is_in id) d.messages h.message_ids)
                (All-delete _ (is_in id) d.messages still_owned)
          | false ↦ deleted d.messages h.message_ids_given h.message_ids still_owned
        ]
    where
      still_owned : All (IsOwned (delete_where (has_id id) d.conversations)) d.messages
      still_owned = IsOwned-elsewhere id d.conversations d.messages gone h.owned

      deleted :
          (ms : List MessageRow)
          → All (λ m. m.id ≤ d.messages_seq) ms
          → Distinct message_id_of ms
          → All (IsOwned (delete_where (has_id id) d.conversations)) ms
          → IsConsistent
              (record d { conversations = delete_where (has_id id) d.conversations; messages = ms })
      deleted ms given distinct owned = record {
        conversation_ids_given = All-delete _ (has_id id) d.conversations h.conversation_ids_given;
        conversation_ids =
            Distinct-delete conversation_id_of (has_id id) d.conversations h.conversation_ids;
        fingerprints = Distinct-delete fingerprint_of (has_id id) d.conversations h.fingerprints;
        message_ids_given = given;
        message_ids = distinct;
        owned = owned;
      }
