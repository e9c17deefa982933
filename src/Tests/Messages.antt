-- ===== src/Tests/Messages.antt =====
-- Runs of the message store, from a database in which Bob has a conversation with one message.
use lotl.Prelude.{Bool, ◌≡◌, refl, true, false, none, some, List, [], ◌∷◌, arith}
use lotl.Prelude.Int.{pos}
use lotl.Errors.{sqlite_failure}
use lotl.Exec.{ok}
use lotl.Sql.{Connection, quiet}
use lotl.Types.{MessageDirection, received, sent}
use lotl.Database.{Database, empty_database}
use lotl.History.Types.{StoredMessage, text, pending}
use lotl.History.Store.{store_incoming_message, store_outgoing_message}
use lotl.History.Read.{get_message}
use lotl.History.Consistent.{IsConsistent, IsConsistent-empty}
use lotl.History.Calls.{
  HistoryCall, incoming, outgoing, remove_conversation, mark_read_up_to, serve,
}
use lotl.History.Calls.Reach.{serve-IsConsistent}
use lotl.History.RoundTrip.{get_message-store_message}

-- The third statement is refused.
abbrev faulty : Connection Database
faulty = record {
  tables = empty_database false;
  faults = none ∷ none ∷ some (sqlite_failure 5) ∷ [];
}

abbrev calls : List HistoryCall
calls =
    incoming "bob" (pos 5) (104 ∷ []) true true
    ∷ outgoing "bob" (pos 6) (105 ∷ [])
    ∷ mark_read_up_to "bob" (pos 5)
    ∷ remove_conversation "bob"
    ∷ []

serve-IsConsistent_example : IsConsistent (serve faulty calls).tables
serve-IsConsistent_example = serve-IsConsistent calls faulty (IsConsistent-empty false)

abbrev pub with_bob : Database
with_bob = record {
  contacts = [];
  conversations =
      record {
        id = 3;
        fingerprint = "bob";
        last_message_timestamp = pos 5;
        unread_count = 1;
        archived = false;
      }
      ∷ [];
  conversations_seq = 3;
  messages =
      record {
        id = 7;
        conversation_id = 3;
        direction = pos 0;
        timestamp = pos 5;
        message_type = pos 0;
        content = 104 ∷ [];
        delivery_status = pos 0;
        was_prekey_message = true;
        session_established = true;
      }
      ∷ [];
  messages_seq = 8;
  nostr_identities = [];
  last_insert_rowid = 7;
  foreign_keys = false;
}

abbrev pub with_bob-IsConsistent : IsConsistent with_bob
with_bob-IsConsistent = record {
  conversation_ids_given = (omega arith, tt);
  conversation_ids = (tt, tt);
  fingerprints = (tt, tt);
  message_ids_given = (omega arith, tt);
  message_ids = (tt, tt);
  owned = (refl, tt);
}

abbrev read_as : MessageDirection → Bool → StoredMessage
read_as direction session = record {
  id = 9;
  conversation_id = 3;
  fingerprint = "bob";
  direction = direction;
  timestamp = pos 9;
  message_type = text;
  plaintext = 1 ∷ 2 ∷ [];
  delivery_status = pending;
  was_prekey_message = false;
  session_established = session;
}

get_message-store_message_example :
    ((store_incoming_message "bob" (pos 9) (1 ∷ 2 ∷ []) false true (quiet with_bob)).0 ≡ ok 9)
    × ((get_message 9
          (store_incoming_message "bob" (pos 9) (1 ∷ 2 ∷ []) false true (quiet with_bob)).1).0
        ≡ ok (read_as received true))
    × ((store_outgoing_message "bob" (pos 9) (1 ∷ 2 ∷ []) (quiet with_bob)).0 ≡ ok 9)
    × ((get_message 9 (store_outgoing_message "bob" (pos 9) (1 ∷ 2 ∷ []) (quiet with_bob)).1).0
        ≡ ok (read_as sent false))
get_message-store_message_example =
    get_message-store_message "bob" (pos 9) (1 ∷ 2 ∷ []) with_bob with_bob-IsConsistent false true
      refl
