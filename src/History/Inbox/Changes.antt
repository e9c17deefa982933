-- ===== src/History/Inbox/Changes.antt =====
-- A call on conversations and messages that are there is the step of the inbox, with an engine that
-- refuses nothing.
use lotl.Prelude.{
  string_eq, number_eq, ℕ, ◌≡◌, refl, ap, String, Bool, Option, none, some, List, map, arith,
  where_rows, update_where, delete_where, count_where, Option-cases, inl, inr,
}
use mathlib.Core.Option as Option
use lotl.Prelude.Int.{ℤ}
use lotl.Exec.{Result, ◌>>=◌}
use lotl.Sql.{Connection, statement, quiet}
use lotl.Database.{Database, ConversationRow, MessageRow}
use lotl.History.Types.{DeliveryStatus, delivery_status_as_i64, message_type_from}
use lotl.History.Statements.{
  has_id, is_with, is_in, has_message_id, select_conversation_id, count_messages,
  update_conversations, update_messages, delete_messages,
}
use lotl.History.Manage.{
  update_delivery_status, mark_conversation_read, mark_conversation_read_up_to, is_unread_after,
  delete_message, archive_conversation,
}
use lotl.History.Consistent.{IsConsistent}
use lotl.History.Calls.{
  HistoryCall, set_status, mark_read, mark_read_up_to, remove_message, remove_conversation, archive,
  after,
}
use lotl.History.Opened.{conversation_of}
use lotl.History.RoundTrip.{codes-round_trip}
use lotl.History.Deletion.{
  without, delete_writes, delete_none, gone, kept, other_id, where-delete_ne,
}
use lotl.History.Inbox.{
  Entry, Box, Inbox, put, has_entry_id, at, everywhere, count_unread, step, entry, filled, box_of,
  box_in, inbox,
}
use lotl.History.Inbox.Shown.{shown-update, shown-delete}
use lotl.History.Inbox.Tables.{one_box, row_update, up_to_update, same_box}

-- A call ends with a quiet engine and tables that stand for the step of the inbox.
pub record Refines (d : Database) (call : HistoryCall) : Type 0 where
  pub left : Database
  pub ends : after call (quiet d) ≡ quiet left
  pub shows : inbox left ≡ step (inbox d) call
  pub contacts : left.contacts ≡ d.contacts
  pub foreign_keys : left.foreign_keys ≡ d.foreign_keys

abbrev inbox_of : ℕ → (String → Option Box) → Inbox
inbox_of given boxes = record { given = given; boxes = boxes }

pub same_inbox :
    (a : Inbox) (b : Inbox) → a.given ≡ b.given → ((fp : String) → a.boxes fp ≡ b.boxes fp) → a ≡ b
same_inbox a b e k = λ i. inbox_of (e i) (λ fp. k fp i)

module _ (d : Database) where
  -- An UPDATE or a DELETE of messages wherever they are.
  messages_changed :
      (ms : List MessageRow) (f : List Entry → List Entry)
      → ((id : ℕ)
          → map entry (where_rows (is_in id) ms) ≡ f (map entry (where_rows (is_in id) d.messages)))
      → inbox (record d { messages = ms }) ≡ everywhere f (inbox d)
  messages_changed ms f k =
      same_inbox (inbox (record d { messages = ms })) (everywhere f (inbox d)) refl
        λ fp. shown (conversation_of fp d)
    where
      shown :
          (o : Option ConversationRow)
          → Option.map (box_of ms) o
            ≡ Option.map
                (λ (b : Box). record b { entries = f b.entries })
                (Option.map (box_of d.messages) o)
      shown none = refl
      shown (some c) = ap (λ es. some (filled es c)) (k c.id)

  pub set_status-Refines : (id : ℕ) (status : DeliveryStatus) → Refines d (set_status id status)
  unfolding after update_delivery_status update_messages statement
  set_status-Refines id status = record {
    left = record d {
      messages =
          update_where (has_message_id id)
            (λ m. record m { delivery_status = delivery_status_as_i64 status }) d.messages;
    };
    ends = refl;
    shows = messages_changed _ _ λ k.
        shown-update entry (is_in k) (has_message_id id) (has_entry_id id) (λ m. refl)
          (λ m. record m { delivery_status = delivery_status_as_i64 status })
          (λ (e : Entry). record e { delivery_status = status }) d.messages (λ m. refl)
          (λ m.
            ap (λ s. record (entry m) { delivery_status = s })
              (codes-round_trip (message_type_from m.message_type) status).1);
    contacts = refl;
    foreign_keys = refl;
  }

  pub remove_message-Refines : (id : ℕ) → Refines d (remove_message id)
  unfolding after delete_message delete_messages statement
  remove_message-Refines id = record {
    left = record d { messages = delete_where (has_message_id id) d.messages };
    ends = refl;
    shows = messages_changed _ _ λ k.
        shown-delete entry (is_in k) (has_message_id id) (has_entry_id id) (λ m. refl) d.messages;
    contacts = refl;
    foreign_keys = refl;
  }

  -- An UPDATE of the conversation with the fingerprint.
  rows_changed :
      (fp : String) (f : ConversationRow → ConversationRow) (g : Box → Box)
      → ((c : ConversationRow) → (f c).fingerprint ≡ c.fingerprint)
      → ((c : ConversationRow) → box_of d.messages (f c) ≡ g (box_of d.messages c))
      → inbox (record d { conversations = update_where (is_with fp) f d.conversations })
        ≡ at fp g (inbox d)
  rows_changed fp f g same shows =
      same_inbox (inbox (record d { conversations = update_where (is_with fp) f d.conversations }))
        (at fp g (inbox d)) refl (row_update fp d f g same shows)

  pub mark_read-Refines : (fp : String) → Refines d (mark_read fp)
  unfolding after mark_conversation_read update_conversations statement
  mark_read-Refines fp = record {
    left = record d {
      conversations =
          update_where (is_with fp) (λ c. record c { unread_count = 0 }) d.conversations;
    };
    ends = refl;
    shows = rows_changed fp _ (λ b. record b { unread_count = 0 }) (λ c. refl) (λ c. refl);
    contacts = refl;
    foreign_keys = refl;
  }

  pub archive-Refines : (fp : String) (archived : Bool) → Refines d (archive fp archived)
  unfolding after archive_conversation update_conversations statement
  archive-Refines fp archived = record {
    left = record d {
      conversations =
          update_where (is_with fp) (λ c. record c { archived = archived }) d.conversations;
    };
    ends = refl;
    shows = rows_changed fp _ (λ b. record b { archived = archived }) (λ c. refl) (λ c. refl);
    contacts = refl;
    foreign_keys = refl;
  }

  -- Nothing changes where there is no box to change.
  no_box :
      (fp : String) (b : Option Box)
      → conversation_of fp d ≡ none
      → b ≡ none
      → inbox d ≡ record (inbox d) { boxes = put fp b (λ x. box_in x d) }
  no_box fp b e k =
      same_inbox (inbox d) (record (inbox d) { boxes = put fp b (λ x. box_in x d) }) refl
        (one_box fp d d b (rw (e, k) refl) (λ fp' ne. refl))

  module _ (h : IsConsistent d) where
    pub mark_read_up_to-Refines : (fp : String) (t : ℤ) → Refines d (mark_read_up_to fp t)
    unfolding after mark_conversation_read_up_to select_conversation_id count_messages
        update_conversations statement ◌>>=◌
    mark_read_up_to-Refines fp t = elim (Option-cases (conversation_of fp d)) [
      | inl e ↦ record {
        left = d;
        ends = rw e refl;
        shows = no_box fp _ e (rw e refl);
        contacts = refl;
        foreign_keys = refl;
      }
      | inr (c, e) ↦ record {
        left = record d {
          conversations =
              update_where (has_id c.id)
                (λ x. record x { unread_count = count_where (is_unread_after c.id t) d.messages })
                d.conversations;
        };
        ends = rw e refl;
        shows = same_inbox _ (at fp (count_unread t) (inbox d)) refl (up_to_update fp d h t c e);
        contacts = refl;
        foreign_keys = refl;
      }
    ]

    pub remove_conversation-Refines : (fp : String) → Refines d (remove_conversation fp)
    unfolding after
    remove_conversation-Refines fp = elim (Option-cases (conversation_of fp d)) [
      | inl e ↦ record {
        left = d;
        ends = ap (λ (p : Result Unit × Connection Database). p.1) (delete_none fp d e);
        shows = no_box fp none e refl;
        contacts = refl;
        foreign_keys = refl;
      }
      | inr (c, e) ↦ record {
        left = without c d;
        ends = ap (λ (p : Result Unit × Connection Database). p.1) (delete_writes fp d c e);
        shows = same_inbox _ (step (inbox d) (remove_conversation fp)) refl (
            one_box fp d (without c d) none
              (ap (Option.map (box_of (without c d).messages)) (gone fp c d h e))
              (λ fp' ne. same_box fp d (without c d) fp' (kept fp c d h e fp' ne) (λ c' e'.
                where-delete_ne (is_in c'.id) (is_in c.id) d.messages
                  (λ m k. ground (arith, k, other_id fp c d h e fp' c' ne e')))));
        contacts = refl;
        foreign_keys = refl;
      }
    ]
