-- ===== src/History/Opened.antt =====
-- The conversation that a stored message opens, and the tables after the message, with an engine that
-- refuses nothing.
use lotl.Prelude.{
  number_eq, string_eq, ℕ, suc, ◌≡◌, refl, ◌∙◌, eq_iff, String, Bool, true, false, not, ◌&&◌, ◌==◌,
  ==_iff, Option, none, some, List, [], ◌∷◌, ◌++◌, arith, first_where, any_where, update_where,
  Bool-cases, Option-cases, inl, inr,
}
use lotl.Prelude.Int.{ℤ}
use lotl.Prelude.Lookup.{first_where-append}
use lotl.Exec.{ok, ◌>>=◌}
use lotl.Sql.{statement, quiet}
use lotl.Database.{Database, ConversationRow}
use lotl.History.Statements.{
  has_id, is_with, has_contact, new_conversation, NewMessage, message_row, select_conversation_id,
  insert_conversation, insert_message, update_conversations,
}
use lotl.History.Store.{
  id_or_new, get_or_create_conversation, touched, update_conversation, incoming,
  store_incoming_message, outgoing, store_outgoing_message,
}

abbrev pub conversation_of : String → Database → Option ConversationRow
conversation_of fp d = first_where (is_with fp) d.conversations

-- The contact is listed, or the FOREIGN KEY clause is not enforced.
abbrev pub IsAdmitted : String → Database → Type 0
IsAdmitted fp d = (d.foreign_keys && not (any_where (has_contact fp) d.contacts)) ≡ false

-- The conversation that `get_or_create_conversation` gives, and the tables then.
abbrev pub opened : String → Database → Option ConversationRow → ConversationRow
opened fp d none = new_conversation (suc d.conversations_seq) fp
opened fp d (some c) = c

abbrev pub open_in : String → Database → Option ConversationRow → Database
open_in fp d none = record d {
  conversations = d.conversations ++ new_conversation (suc d.conversations_seq) fp ∷ [];
  conversations_seq = suc d.conversations_seq;
  last_insert_rowid = suc d.conversations_seq;
}
open_in fp d (some c) = d

unlisted :
    (fp : String) (xs : List ConversationRow)
    → first_where (is_with fp) xs ≡ none
    → any_where (is_with fp) xs ≡ false
unlisted fp [] h = refl
unlisted fp (x ∷ xs) h = elim (Bool-cases (is_with fp x)) [
  | inl e ↦ ground arith
  | inr e ↦ ground (arith, unlisted fp xs)
]

same_text : (s : String) → (s == s) ≡ true
same_text s = (eq_iff s s).1 refl

pub same_id : (n : ℕ) → (n == n) ≡ true
same_id n = (==_iff n n).1 refl

pub get_or_create_writes :
    (fp : String) (d : Database)
    → IsAdmitted fp d
    → get_or_create_conversation fp (quiet d)
      ≡ (ok (opened fp d (conversation_of fp d)).id, quiet (open_in fp d (conversation_of fp d)))
unfolding get_or_create_conversation id_or_new select_conversation_id insert_conversation statement
    ◌>>=◌
get_or_create_writes fp d a = elim (Option-cases (conversation_of fp d)) [
  | inl e ↦ rw (e, unlisted fp d.conversations e, a)
  | inr (c, e) ↦ rw e
]

new_is_with : (fp : String) (n : ℕ) → is_with fp (new_conversation n fp) ≡ true
new_is_with fp n = same_text fp

pub conversation_of-open_in :
    (fp : String) (d : Database)
    → conversation_of fp (open_in fp d (conversation_of fp d))
      ≡ some (opened fp d (conversation_of fp d))
conversation_of-open_in fp d = elim (Option-cases (conversation_of fp d)) [
  | inl e ↦ rw e (
      first_where-append (is_with fp) d.conversations _ e
      ∙ rw (new_is_with fp (suc d.conversations_seq)))
  | inr (c, e) ↦ rw (e, e)
]

-- The messages and the conversation after the INSERT of a message and the UPDATE that follows it.
abbrev pub deposited : NewMessage → Bool → Database → Database
deposited m increment d = record d {
  messages = d.messages ++ message_row (suc d.messages_seq) m ∷ [];
  messages_seq = suc d.messages_seq;
  last_insert_rowid = suc d.messages_seq;
  conversations =
      update_where (has_id m.conversation_id) (touched m.timestamp increment) d.conversations;
}

pub touched_same :
    (t : ℤ) (increment : Bool) (c : ConversationRow)
    → (touched t increment c).fingerprint ≡ c.fingerprint
touched_same t true c = refl
touched_same t false c = refl

first-Listed :
    (fp : String) (xs : List ConversationRow) (c : ConversationRow)
    → first_where (is_with fp) xs ≡ some c
    → any_where (has_id c.id) xs ≡ true
first-Listed fp [] c h = cc
first-Listed fp (x ∷ xs) c h = elim (Bool-cases (is_with fp x)) [
  | inl e ↦ ground arith
  | inr e ↦ ground (arith, first-Listed fp xs c)
]

open-Listed :
    (fp : String) (d : Database)
    → any_where
        (has_id (opened fp d (conversation_of fp d)).id)
        (open_in fp d (conversation_of fp d)).conversations
      ≡ true
open-Listed fp d = first-Listed fp _ _ (conversation_of-open_in fp d)

pub and_false : (b : Bool) → (b && false) ≡ false
and_false true = refl
and_false false = refl

module _ (fp : String) (t : ℤ) (content : List ℕ) (d : Database) where
  abbrev pub opened_conversation : ConversationRow
  opened_conversation = opened fp d (conversation_of fp d)

  abbrev pub opened_database : Database
  opened_database = open_in fp d (conversation_of fp d)

  pub store_incoming_writes :
      (prekey session : Bool)
      → IsAdmitted fp d
      → store_incoming_message fp t content prekey session (quiet d) ≡ (
        ok (suc opened_database.messages_seq),
        quiet (
            deposited
              (incoming opened_conversation.id t content prekey session)
              true
              opened_database),
      )
  unfolding store_incoming_message update_conversation insert_message update_conversations statement
      ◌>>=◌
  store_incoming_writes prekey session a =
      rw (get_or_create_writes fp d a, open-Listed fp d, and_false opened_database.foreign_keys)

  pub store_outgoing_writes :
      IsAdmitted fp d
      → store_outgoing_message fp t content (quiet d) ≡ (
        ok (suc opened_database.messages_seq),
        quiet (deposited (outgoing opened_conversation.id t content) false opened_database),
      )
  unfolding store_outgoing_message update_conversation insert_message update_conversations statement
      ◌>>=◌
  store_outgoing_writes a =
      rw (get_or_create_writes fp d a, open-Listed fp d, and_false opened_database.foreign_keys)
