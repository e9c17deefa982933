-- ===== src/History/Inbox/Refines.antt =====
-- The calls of src/message_history.rs are the steps of the inbox, with an engine that refuses
-- nothing.
use lotl.Prelude.{
  string_eq, number_eq, ℕ, suc, ◌≡◌, refl, sym, ap, ◌∙◌, String, Bool, true, false, not, ◌&&◌, some,
  List, [], ◌∷◌, ◌++◌, any_where, All, Option-cases, inl, inr,
}
use lotl.Prelude.Int.{ℤ}
use lotl.Types.{ContactInfo}
use lotl.Exec.{Result, ok}
use lotl.Sql.{Connection, quiet}
use lotl.Database.{Database, ConversationRow}
use lotl.History.Types.{
  delivery_status_from, delivery_status_as_i64, direction_from, message_type_from,
  message_type_as_i64,
}
use lotl.History.Statements.{has_contact, NewMessage, message_row}
use lotl.History.Store
use lotl.History.Store.{touched}
use lotl.History.Consistent.{IsConsistent}
use lotl.History.Calls.{
  HistoryCall, incoming, outgoing, set_status, mark_read, mark_read_up_to, remove_message,
  remove_conversation, archive, after, serve,
}
use lotl.History.Calls.Reach.{after-Sound}
use lotl.History.Opened.{
  conversation_of, IsAdmitted, opened, open_in, conversation_of-open_in, deposited,
  store_incoming_writes, store_outgoing_writes,
}
use lotl.History.RoundTrip.{open-messages}
use lotl.History.Inbox.{
  unread_of, Entry, Box, Inbox, new_box, put, received_in, sent_in, steps, entry, filled, box_in,
  inbox,
}
use lotl.History.Inbox.Tables.{one_box}
use lotl.History.Inbox.Deposit.{deposited_own, deposited_ne, opened_box, open_ne, open-IsConsistent}
use lotl.History.Read.{get_unread_count}
use lotl.History.Deletion.Reads.{unread_in, unread_read}
use lotl.History.Inbox.Changes.{
  Refines, same_inbox, set_status-Refines, remove_message-Refines, mark_read-Refines,
  archive-Refines, mark_read_up_to-Refines, remove_conversation-Refines,
}

-- The contact of a message is listed, or the FOREIGN KEY clause is not enforced.
abbrev pub Admits : Bool → List ContactInfo → HistoryCall → Type 0
Admits enforced contacts (incoming fp t content prekey session) =
    (enforced && not (any_where (has_contact fp) contacts)) ≡ false
Admits enforced contacts (outgoing fp t content) =
    (enforced && not (any_where (has_contact fp) contacts)) ≡ false
Admits enforced contacts call = Unit

module _ (d : Database) (h : IsConsistent d) where
  module _ (fp : String) (a : IsAdmitted fp d) where
    abbrev home : ConversationRow
    home = opened fp d (conversation_of fp d)

    abbrev open_d : Database
    open_d = open_in fp d (conversation_of fp d)

    -- The boxes after the message, for what the message adds to its own box.
    deposit_shows :
        (m : NewMessage) (increment : Bool) (g : Entry → Box → Box)
        → m.conversation_id ≡ home.id
        → ((b : ConversationRow) (es : List Entry) (e : Entry)
            → e.timestamp ≡ m.timestamp
            → filled (es ++ e ∷ []) (touched m.timestamp increment b) ≡ g e (filled es b))
        → inbox (deposited m increment open_d) ≡ record {
          given = suc d.messages_seq;
          boxes =
              put fp
                (some (g (entry (message_row (suc d.messages_seq) m)) (new_box (box_in fp d))))
                (λ x. box_in x d);
        }
    deposit_shows m increment g own adds =
        let k = open-IsConsistent fp d h a in
        let found = conversation_of-open_in fp d in
        same_inbox (inbox (deposited m increment open_d)) _ (ap (λ n. suc n) (open-messages fp d).1)
          (one_box fp d (deposited m increment open_d) _
            (deposited_own fp open_d k home found m increment own
              ∙ ap some (adds home _ _ refl)
              ∙ ap (λ b. some (g (entry (message_row (suc open_d.messages_seq) m)) b))
                  (opened_box fp d h)
              ∙ ap (λ n. some (g (entry (message_row (suc n) m)) (new_box (box_in fp d))))
                  (open-messages fp d).1)
            (λ fp' ne.
              deposited_ne fp open_d k home found m increment own fp' ne ∙ open_ne fp d h fp' ne))

    open_same : (open_d.contacts ≡ d.contacts) × (open_d.foreign_keys ≡ d.foreign_keys)
    open_same = elim (Option-cases (conversation_of fp d)) [
      | inl e ↦ rw e (refl, refl)
      | inr (c, e) ↦ rw e (refl, refl)
    ]

    incoming-Refines :
        (t : ℤ) (content : List ℕ) (prekey session : Bool)
        → Refines d (incoming fp t content prekey session)
    unfolding after direction_from message_type_from message_type_as_i64 delivery_status_from
    incoming-Refines t content prekey session =
        let m = Store.incoming home.id t content prekey session in
        record {
          left = deposited m true open_d;
          ends =
              ap (λ (p : Result ℕ × Connection Database). p.1)
                (store_incoming_writes fp t content d prekey session a);
          shows = deposit_shows m true received_in refl (λ b es e k. rw k refl);
          contacts = open_same.0;
          foreign_keys = open_same.1;
        }

    outgoing-Refines : (t : ℤ) (content : List ℕ) → Refines d (outgoing fp t content)
    unfolding after direction_from message_type_from message_type_as_i64 delivery_status_from
        delivery_status_as_i64
    outgoing-Refines t content =
        let m = Store.outgoing home.id t content in
        record {
          left = deposited m false open_d;
          ends =
              ap (λ (p : Result ℕ × Connection Database). p.1)
                (store_outgoing_writes fp t content d a);
          shows = deposit_shows m false sent_in refl (λ b es e k. rw k refl);
          contacts = open_same.0;
          foreign_keys = open_same.1;
        }

  call-Refines : (call : HistoryCall) → Admits d.foreign_keys d.contacts call → Refines d call
  call-Refines (incoming fp t content prekey session) a =
      incoming-Refines fp a t content prekey session
  call-Refines (outgoing fp t content) a = outgoing-Refines fp a t content
  call-Refines (set_status id status) a = set_status-Refines d id status
  call-Refines (mark_read fp) a = mark_read-Refines d fp
  call-Refines (mark_read_up_to fp t) a = mark_read_up_to-Refines d h fp t
  call-Refines (remove_message id) a = remove_message-Refines d id
  call-Refines (remove_conversation fp) a = remove_conversation-Refines d h fp
  call-Refines (archive fp archived) a = archive-Refines d fp archived

-- All calls.
pub record RefinesAll (d : Database) (calls : List HistoryCall) : Type 0 where
  pub left : Database
  pub ends : serve (quiet d) calls ≡ quiet left
  pub shows : inbox left ≡ steps (inbox d) calls

pub serve-RefinesAll :
    (calls : List HistoryCall) (d : Database)
    → IsConsistent d
    → All (Admits d.foreign_keys d.contacts) calls
    → RefinesAll d calls
unfolding serve
serve-RefinesAll [] d h a = record { left = d; ends = refl; shows = refl }
serve-RefinesAll (call ∷ rest) d h a =
    let r = call-Refines d h call a.0 in
    let s =
      serve-RefinesAll rest r.left
        (rw (sym (ap (λ (c : Connection Database). c.tables) r.ends))
          (after-Sound call (quiet d) h))
        (rw (r.foreign_keys, r.contacts) (a.1)) in
    record {
      left = s.left;
      ends = ap (λ c. serve c rest) r.ends ∙ s.ends;
      shows = s.shows ∙ ap (λ i. steps i rest) r.shows;
    }

unread_shown :
    (fp : String) (d : Database) → unread_in (conversation_of fp d) ≡ unread_of (box_in fp d)
unread_shown fp d = elim (Option-cases (conversation_of fp d)) [
  | inl e ↦ rw e refl
  | inr (c, e) ↦ rw e refl
]

-- From consistent tables, with an engine that refuses nothing and messages of listed contacts
-- only, unless the engine does not ask for it: after any sequence of storing, marking, deleting
-- and archiving calls, the tables stand for the inbox that the steps of the calls make of the
-- inbox that the tables stood for (the messages of each contact in order, its unread count, its
-- last timestamp, whether it is archived, and the last message id), and the unread count of any
-- contact is read from that inbox.
pub inbox-serve :
    (calls : List HistoryCall) (d : Database)
    → IsConsistent d
    → All (Admits d.foreign_keys d.contacts) calls
    → (inbox (serve (quiet d) calls).tables ≡ steps (inbox d) calls)
      × ((fp : String)
          → (get_unread_count fp (serve (quiet d) calls)).0
            ≡ ok (unread_of ((steps (inbox d) calls).boxes fp)))
inbox-serve calls d h a =
    let s = serve-RefinesAll calls d h a in
    (
      ap (λ (c : Connection Database). inbox c.tables) s.ends ∙ s.shows,
      λ fp.
          ap (λ c. (get_unread_count fp c).0) s.ends
          ∙ unread_read fp s.left
          ∙ ap (λ n. ok n) (unread_shown fp s.left)
          ∙ ap (λ (i : Inbox). ok (unread_of (i.boxes fp))) s.shows,
    )
