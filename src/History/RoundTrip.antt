-- ===== src/History/RoundTrip.antt =====
-- A stored message is read back, with an engine that refuses nothing.
use lotl.Prelude.{
  number_eq, string_eq, ℕ, suc, ◌≡◌, ◌≢◌, refl, ap, ◌∙◌, String, Bool, true, false, ◌==◌, eq_iff,
  some, List, [], ◌∷◌, ◌++◌, arith, first_where, update_where, All, Bool-cases, Option-cases, inl,
  inr,
}
use lotl.Prelude.Int.{ℤ}
use lotl.Prelude.Lookup.{head_is, All_of_first}
use lotl.Prelude.Rows.{first_where_holds, Distinct, All-mono, Distinct-append_one}
use lotl.Exec.{ok, ◌>>=◌}
use lotl.Sql.{statement, quiet}
use lotl.Types.{MessageDirection, received, sent}
use lotl.Database.{Database, ConversationRow, MessageRow}
use lotl.History.Types.{
  StoredMessage, stored_message, text, pending, message_type_from, message_type_as_i64, MessageType,
  DeliveryStatus, delivery_status_from, delivery_status_as_i64, direction_from, bundle_announcement,
  system, sent_to_transport, delivered, failed,
}
use lotl.History.Statements.{has_id, is_with, NewMessage, message_row}
use lotl.History.Store.{touched, incoming, outgoing, store_incoming_message, store_outgoing_message}
use lotl.History.Read.{join_first, select_message, found_message, get_message}
use lotl.History.Consistent.{IsConsistent, conversation_id_of}
use lotl.History.Opened.{
  conversation_of, IsAdmitted, opened, open_in, deposited, conversation_of-open_in, same_id,
  store_incoming_writes, store_outgoing_writes, touched_same,
}

other_id : (a b : ℕ) → a ≢ b → (a == b) ≡ false
other_id a b ne = ground arith

type_back : (type : MessageType) → message_type_from (message_type_as_i64 type) ≡ type
unfolding message_type_from message_type_as_i64
type_back text = refl
type_back bundle_announcement = refl
type_back system = refl

status_back :
    (status : DeliveryStatus) → delivery_status_from (delivery_status_as_i64 status) ≡ status
unfolding delivery_status_from delivery_status_as_i64
status_back pending = refl
status_back sent_to_transport = refl
status_back delivered = refl
status_back failed = refl

-- The code of every message type and delivery status is read back as what it stands for.
pub codes-round_trip :
    (type : MessageType) (status : DeliveryStatus)
    → message_type_from (message_type_as_i64 type) ≡ type
      × delivery_status_from (delivery_status_as_i64 status) ≡ status
unfolding message_type_from message_type_as_i64 delivery_status_from delivery_status_as_i64
codes-round_trip type status = (type_back type, status_back status)

join-fresh :
    (id : ℕ) (cs : List ConversationRow) (ms : List MessageRow) (m : MessageRow)
    → All (λ x. x.id ≢ id) ms
    → join_first id cs (ms ++ m ∷ []) ≡ join_first id cs (m ∷ [])
unfolding join_first
join-fresh id cs [] m h = refl
join-fresh id cs (x ∷ ms) m h = rw (other_id x.id id h.0) (join-fresh id cs ms m h.1)

join-one :
    (cs : List ConversationRow) (m : MessageRow) (c : ConversationRow)
    → first_where (has_id m.conversation_id) cs ≡ some c
    → join_first m.id cs (m ∷ []) ≡ some (stored_message c.fingerprint m)
unfolding join_first
join-one cs m c e = rw (same_id m.id, e)

message_found :
    (d : Database) (id : ℕ) (s : StoredMessage)
    → join_first id d.conversations d.messages ≡ some s
    → (get_message id (quiet d)).0 ≡ ok s
unfolding get_message found_message select_message statement ◌>>=◌
message_found d id s e = rw e

module _ (f : ConversationRow → ConversationRow)
    (same : (x : ConversationRow) → (f x).id ≡ x.id) where
  -- With distinct ids, the conversation with the fingerprint is the one with its id.
  first_by_id :
      (fp : String) (xs : List ConversationRow) (c : ConversationRow)
      → Distinct conversation_id_of xs
      → first_where (is_with fp) xs ≡ some c
      → first_where (has_id c.id) (update_where (has_id c.id) f xs) ≡ some (f c)
  first_by_id fp [] c h e = cc
  first_by_id fp (x ∷ xs) c h e = elim (Bool-cases (is_with fp x)) [
    | inl w ↦ rw (head_is (is_with fp) x xs c w e, same_id c.id, same c, same_id c.id)
    | inr w ↦
        rw
          (
            other_id x.id c.id
                (All_of_first (is_with fp) (λ y. x.id ≢ y.id) xs c h.0 (ground arith)),
            other_id x.id c.id
                (All_of_first (is_with fp) (λ y. x.id ≢ y.id) xs c h.0 (ground arith)),
          )
          (first_by_id fp xs c h.1 (ground arith))
  ]

open-Distinct :
    (fp : String) (d : Database)
    → IsConsistent d
    → Distinct conversation_id_of (open_in fp d (conversation_of fp d)).conversations
open-Distinct fp d h = elim (Option-cases (conversation_of fp d)) [
  | inl e ↦ rw e (
      Distinct-append_one conversation_id_of d.conversations _
        (All-mono _ _ d.conversations (λ x k. ground arith) h.conversation_ids_given)
        h.conversation_ids)
  | inr (c, e) ↦ rw e h.conversation_ids
]

pub touched_id :
    (t : ℤ) (increment : Bool) (c : ConversationRow) → (touched t increment c).id ≡ c.id
touched_id t true c = refl
touched_id t false c = refl

pub open-messages :
    (fp : String) (d : Database)
    → (open_in fp d (conversation_of fp d)).messages ≡ d.messages
      × (open_in fp d (conversation_of fp d)).messages_seq ≡ d.messages_seq
open-messages fp d = elim (Option-cases (conversation_of fp d)) [
  | inl e ↦ rw e (refl, refl)
  | inr (c, e) ↦ rw e (refl, refl)
]

pub opened-fingerprint :
    (fp : String) (d : Database) → (opened fp d (conversation_of fp d)).fingerprint ≡ fp
opened-fingerprint fp d = elim (Option-cases (conversation_of fp d)) [
  | inl e ↦ rw e
  | inr (c, e) ↦
      rw e (
        ground (arith, first_where_holds (is_with fp) d.conversations c e, eq_iff c.fingerprint fp))
]

module _ (fp : String) (t : ℤ) (content : List ℕ) (d : Database) (h : IsConsistent d) where
  -- The id that the next message gets.
  abbrev pub next_id : ℕ
  next_id = suc d.messages_seq

  abbrev home : ConversationRow
  home = opened fp d (conversation_of fp d)

  joined :
      (m : NewMessage) (increment : Bool)
      → m.conversation_id ≡ home.id
      → join_first next_id
          (deposited m increment (open_in fp d (conversation_of fp d))).conversations
          (deposited m increment (open_in fp d (conversation_of fp d))).messages
        ≡ some (stored_message fp (message_row next_id m))
  joined m increment e =
      rw ((open-messages fp d).0, (open-messages fp d).1)
        (join-fresh next_id _ d.messages (message_row next_id m)
            (All-mono _ _ d.messages (λ x k. omega (arith, k)) h.message_ids_given)
          ∙ join-one _ (message_row next_id m) (touched m.timestamp increment home) (
              rw e (
                first_by_id (touched m.timestamp increment) (touched_id m.timestamp increment) fp _
                  home (open-Distinct fp d h) (conversation_of-open_in fp d)))
          ∙ ap (λ f. some (stored_message f (message_row next_id m)))
              (touched_same m.timestamp increment home ∙ opened-fingerprint fp d))

  found_deposited :
      (m : NewMessage) (increment : Bool)
      → m.conversation_id ≡ home.id
      → (get_message next_id
          (quiet (deposited m increment (open_in fp d (conversation_of fp d))))).0
        ≡ ok (stored_message fp (message_row next_id m))
  found_deposited m increment e =
      message_found (deposited m increment (open_in fp d (conversation_of fp d))) next_id _
        (joined m increment e)

  -- a received message
  get_message-store_incoming_message :
      (prekey session : Bool)
      → IsAdmitted fp d
      → (store_incoming_message fp t content prekey session (quiet d)).0 ≡ ok next_id
        × (get_message next_id (store_incoming_message fp t content prekey session (quiet d)).1).0
          ≡ ok (record {
            id = next_id;
            conversation_id = home.id;
            fingerprint = fp;
            direction = received;
            timestamp = t;
            message_type = text;
            plaintext = content;
            delivery_status = pending;
            was_prekey_message = prekey;
            session_established = session;
          })
  unfolding stored_message direction_from message_type_from message_type_as_i64 delivery_status_from
  get_message-store_incoming_message prekey session a =
      rw (store_incoming_writes fp t content d prekey session a) (
        ap (λ n. ok (suc n)) (open-messages fp d).1,
        found_deposited (incoming home.id t content prekey session) true refl,
      )

  -- a sent message
  get_message-store_outgoing_message :
      IsAdmitted fp d
      → (store_outgoing_message fp t content (quiet d)).0 ≡ ok next_id
        × (get_message next_id (store_outgoing_message fp t content (quiet d)).1).0
          ≡ ok (record {
            id = next_id;
            conversation_id = home.id;
            fingerprint = fp;
            direction = sent;
            timestamp = t;
            message_type = text;
            plaintext = content;
            delivery_status = pending;
            was_prekey_message = false;
            session_established = false;
          })
  unfolding stored_message direction_from message_type_from message_type_as_i64 delivery_status_from
      delivery_status_as_i64
  get_message-store_outgoing_message a = rw (store_outgoing_writes fp t content d a) (
    ap (λ n. ok (suc n)) (open-messages fp d).1,
    found_deposited (outgoing home.id t content) false refl,
  )

  abbrev pub read_back : MessageDirection → Bool → Bool → StoredMessage
  read_back direction prekey session = record {
    id = next_id;
    conversation_id = home.id;
    fingerprint = fp;
    direction = direction;
    timestamp = t;
    message_type = text;
    plaintext = content;
    delivery_status = pending;
    was_prekey_message = prekey;
    session_established = session;
  }

  -- From consistent tables, where the contact is listed or the engine does not ask for it, and
  -- the engine refuses nothing: storing an incoming message returns a new id, under which the
  -- message is read back as a received text with its sender, timestamp, content and flags;
  -- storing an outgoing message returns a new id, under which it is read back as a sent text that
  -- is pending, with its receiver, timestamp and content.
  pub get_message-store_message :
      (prekey session : Bool)
      → IsAdmitted fp d
      → ((store_incoming_message fp t content prekey session (quiet d)).0 ≡ ok next_id)
        × ((get_message next_id (store_incoming_message fp t content prekey session (quiet d)).1).0
            ≡ ok (read_back received prekey session))
        × ((store_outgoing_message fp t content (quiet d)).0 ≡ ok next_id)
        × ((get_message next_id (store_outgoing_message fp t content (quiet d)).1).0
            ≡ ok (read_back sent false false))
  get_message-store_message prekey session a =
      let received' = get_message-store_incoming_message prekey session a in
      let sent' = get_message-store_outgoing_message a in
      (received'.0, received'.1, sent'.0, sent'.1)
