-- ===== src/History/Unread.antt =====
-- The unread count of a conversation, with an engine that refuses nothing.
use lotl.Prelude.{
  number_eq, string_eq, ℕ, ◌+◌, ◌≡◌, refl, sym, ap, String, Bool, true, false, Option, some, List,
  [], ◌∷◌, arith, if◌then◌else◌, first_where, update_where, count_where, Bool-cases, inl, inr,
}
use lotl.Prelude.Int.{ℤ}
use lotl.Exec.{ok, ◌>>=◌}
use lotl.Sql.{statement, quiet}
use lotl.Database.{Database, ConversationRow}
use lotl.History.Statements.{
  has_id, is_with, NewMessage, select_conversation_id, update_conversations, count_messages,
}
use lotl.History.Store.{touched, incoming, store_incoming_message, outgoing, store_outgoing_message}
use lotl.History.Manage.{is_unread_after, mark_conversation_read_up_to}
use lotl.History.Read.{as_u32, unread_of, select_unread_count, get_unread_count}
use lotl.History.Opened.{
  conversation_of, IsAdmitted, same_id, conversation_of-open_in, touched_same, deposited,
  opened_conversation, opened_database, store_incoming_writes, store_outgoing_writes,
}

module _ (fp : String) (f : ConversationRow → ConversationRow)
    (same : (x : ConversationRow) → (f x).fingerprint ≡ x.fingerprint) where
  first_is :
      (x : ConversationRow) (xs : List ConversationRow) (c : ConversationRow)
      → is_with fp x ≡ true
      → first_where (is_with fp) (x ∷ xs) ≡ some c
      → x ≡ c
  first_is x xs c e h = cc

  found_here :
      (x c : ConversationRow) (rest : Option ConversationRow)
      → x ≡ c
      → is_with fp x ≡ true
      → (if is_with fp (if has_id c.id x then f x else x)
          then some (if has_id c.id x then f x else x)
          else rest)
        ≡ some (f c)
  found_here x c rest q e =
      rw (q, same_id c.id, same c, sym (ap (λ (y : ConversationRow). y.fingerprint) q), e)

  -- An UPDATE by the id of the first conversation with the fingerprint.
  pub first-update_id :
      (xs : List ConversationRow) (c : ConversationRow)
      → first_where (is_with fp) xs ≡ some c
      → first_where (is_with fp) (update_where (has_id c.id) f xs) ≡ some (f c)
  first-update_id [] c h = cc
  first-update_id (x ∷ xs) c h = elim (Bool-cases (is_with fp x)) [
    | inl e ↦ found_here x c _ (first_is x xs c e h) e
    | inr e ↦ elim (Bool-cases (has_id c.id x)) [
      | inl e' ↦ rw (e', same x, e) (first-update_id xs c (ground arith))
      | inr e' ↦ rw (e', e) (first-update_id xs c (ground arith))
    ]
  ]

unread_found :
    (fp : String) (d : Database) (c : ConversationRow)
    → conversation_of fp d ≡ some c
    → (get_unread_count fp (quiet d)).0 ≡ ok (as_u32 c.unread_count)
unfolding get_unread_count unread_of select_unread_count statement ◌>>=◌
unread_found fp d c e = rw e

module _ (fp : String) (t : ℤ) (content : List ℕ) (d : Database) where
  abbrev home : ConversationRow
  home = opened_conversation fp t content d

  abbrev home_database : Database
  home_database = opened_database fp t content d

  deposited_unread :
      (m : NewMessage) (increment : Bool)
      → m.conversation_id ≡ home.id
      → (get_unread_count fp (quiet (deposited m increment home_database))).0
        ≡ ok (as_u32 (touched m.timestamp increment home).unread_count)
  deposited_unread m increment e =
      unread_found fp (deposited m increment home_database) (touched m.timestamp increment home) (
        rw e (
          first-update_id fp (touched m.timestamp increment) (touched_same m.timestamp increment)
            home_database.conversations home (conversation_of-open_in fp d)))

  -- an incoming message
  get_unread_count-store_incoming_message :
      (prekey session : Bool)
      → IsAdmitted fp d
      → (get_unread_count fp (store_incoming_message fp t content prekey session (quiet d)).1).0
        ≡ ok (as_u32 (home.unread_count + 1))
  get_unread_count-store_incoming_message prekey session a =
      rw (store_incoming_writes fp t content d prekey session a)
        (deposited_unread (incoming home.id t content prekey session) true refl)

  -- an outgoing message
  get_unread_count-store_outgoing_message :
      IsAdmitted fp d
      → (get_unread_count fp (store_outgoing_message fp t content (quiet d)).1).0
        ≡ ok (as_u32 home.unread_count)
  get_unread_count-store_outgoing_message a =
      rw (store_outgoing_writes fp t content d a)
        (deposited_unread (outgoing home.id t content) false refl)

  -- Where the contact is listed or the engine does not ask for it, and the engine refuses
  -- nothing: the unread count read after an incoming message is that of the conversation, new or
  -- old, plus one, and after an outgoing message it is that of the conversation, each as a u32.
  get_unread_count-store_message :
      (prekey session : Bool)
      → IsAdmitted fp d
      → ((get_unread_count fp (store_incoming_message fp t content prekey session (quiet d)).1).0
          ≡ ok (as_u32 (home.unread_count + 1)))
        × ((get_unread_count fp (store_outgoing_message fp t content (quiet d)).1).0
            ≡ ok (as_u32 home.unread_count))
  get_unread_count-store_message prekey session a = (
    get_unread_count-store_incoming_message prekey session a,
    get_unread_count-store_outgoing_message a,
  )

-- With an engine that refuses nothing, marking a conversation read up to a timestamp succeeds,
-- and the unread count read then is, as a u32, the number of the incoming messages of the
-- conversation with a later timestamp, whatever the count was before.
get_unread_count-mark_conversation_read_up_to :
    (fp : String) (up_to : ℤ) (d : Database) (c : ConversationRow)
    → conversation_of fp d ≡ some c
    → (mark_conversation_read_up_to fp up_to (quiet d)).0 ≡ ok tt
      × (get_unread_count fp (mark_conversation_read_up_to fp up_to (quiet d)).1).0
        ≡ ok (as_u32 (count_where (is_unread_after c.id up_to) d.messages))
unfolding mark_conversation_read_up_to select_conversation_id count_messages update_conversations
    statement ◌>>=◌
get_unread_count-mark_conversation_read_up_to fp up_to d c e =
    let n = count_where (is_unread_after c.id up_to) d.messages in
    rw e (
      refl,
      unread_found fp
          (record d {
            conversations =
                update_where (has_id c.id) (λ x. record x { unread_count = n }) d.conversations;
          })
          (record c { unread_count = n })
          (first-update_id fp (λ x. record x { unread_count = n }) (λ x. refl) d.conversations c e),
    )
