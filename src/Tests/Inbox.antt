-- ===== src/Tests/Inbox.antt =====
-- A run of calls over the history and the inbox that it stands for.
use lotl.Prelude.{
  string_eq, ap, ◌∙◌, ◌++◌, ◌==◌, map, count_where, ◌≡◌, refl, String, true, false, some, List, [],
  ◌∷◌,
}
use lotl.Prelude.Int.{pos}
use lotl.Exec.{ok}
use lotl.Sql.{quiet}
use lotl.Types.{received}
use lotl.History.Types.{delivered, direction_from, StoredMessage, ExtendedConversationRecord}
use lotl.History.Read.{get_unread_count, get_conversation_messages, get_conversations}
use lotl.Database.{MessageRow}
use lotl.History.Calls.{
  HistoryCall, incoming, outgoing, set_status, mark_read_up_to, remove_message, archive, serve,
}
use lotl.History.Inbox.{inbox, Entry, entry, steps, text_entry, unread_of}
use lotl.History.Inbox.Reads.{PageOf, page_in, get_conversation_messages-serve}
use lotl.History.Inbox.Listing.{listed, get_conversations-serve}
use lotl.History.Inbox.Refines.{inbox-serve}
use lotl.Tests.Messages.{with_bob, with_bob-IsConsistent}

abbrev two_friends : List HistoryCall
two_friends =
    incoming "bob" (pos 9) (1 ∷ []) false true
    ∷ outgoing "eve" (pos 10) (2 ∷ [])
    ∷ incoming "eve" (pos 11) (3 ∷ []) true true
    ∷ mark_read_up_to "bob" (pos 5)
    ∷ set_status 10 delivered
    ∷ remove_message 7
    ∷ archive "eve" true
    ∷ []

inbox-serve_example :
    (inbox (serve (quiet with_bob) two_friends).tables ≡ steps (inbox with_bob) two_friends)
    × ((fp : String)
        → (get_unread_count fp (serve (quiet with_bob) two_friends)).0
          ≡ ok (unread_of ((steps (inbox with_bob) two_friends).boxes fp)))
inbox-serve_example =
    inbox-serve two_friends with_bob with_bob-IsConsistent
      (refl, (refl, (refl, (tt, (tt, (tt, (tt, tt)))))))

-- Bob's box at the end.
bob_at_the_end :
    (steps (inbox with_bob) two_friends).boxes "bob"
    ≡ some (record {
      entries = text_entry 9 received (pos 9) (1 ∷ []) false true ∷ [];
      last_message_timestamp = pos 9;
      unread_count = 1;
      archived = false;
    })
unfolding direction_from
bob_at_the_end = refl

abbrev newest_first {ℓ} : {A : Type ℓ} → List A → List A
newest_first [] = []
newest_first (x ∷ xs) = newest_first xs ++ x ∷ []

map-append_one {ℓ κ} :
    {A : Type ℓ} {B : Type κ} (f : A → B) (xs : List A) (x : A)
    → map f (xs ++ x ∷ []) ≡ map f xs ++ f x ∷ []
map-append_one f [] x = refl
map-append_one f (y ∷ xs) x = λ i. f y ∷ map-append_one f xs x i

map-newest_first :
    (ms : List MessageRow) → map entry (newest_first ms) ≡ newest_first (map entry ms)
map-newest_first [] = refl
map-newest_first (m ∷ ms) =
    map-append_one entry (newest_first ms) m
    ∙ ap (λ (es : List Entry). es ++ entry m ∷ []) (map-newest_first ms)

get_conversation_messages-serve_example :
    (page : List StoredMessage) × ((get_conversation_messages newest_first "eve" 1 0
        (serve (quiet with_bob) two_friends)).0
      ≡ ok page)
    × PageOf "eve"
        (page_in newest_first 1 0 ((steps (inbox with_bob) two_friends).boxes "eve"))
        page
get_conversation_messages-serve_example =
    get_conversation_messages-serve newest_first newest_first map-newest_first 1 0 two_friends
      with_bob with_bob-IsConsistent (refl, (refl, (refl, (tt, (tt, (tt, (tt, tt))))))) "eve"

get_conversations-serve_example :
    (conversations : List ExtendedConversationRecord) × ((get_conversations
        (λ cs. cs)
        false
        (serve (quiet with_bob) two_friends)).0
      ≡ ok conversations)
    × ((fp : String)
        → count_where (λ c. c.fingerprint == fp) conversations
          ≡ listed false ((steps (inbox with_bob) two_friends).boxes fp))
get_conversations-serve_example =
    get_conversations-serve (λ cs. cs) (λ p cs. refl) two_friends with_bob with_bob-IsConsistent
      (refl, (refl, (refl, (tt, (tt, (tt, (tt, tt))))))) false

-- The archived contact is not listed.
eve_is_left_out : listed false ((steps (inbox with_bob) two_friends).boxes "eve") ≡ 0
eve_is_left_out = refl
