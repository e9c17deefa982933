-- ===== src/History/Inbox/Reads.antt =====
-- What the reads of src/message_history.rs give of the inbox after any calls, with an engine that
-- refuses nothing.
use lotl.Prelude.{
  string_eq, ℕ, zero, suc, ◌≡◌, refl, sym, ap, ◌∙◌, String, Option, none, some, List, [], ◌∷◌, map,
  take, drop, where_rows, All,
}
use mathlib.Core.Option as Option
use lotl.Exec.{ok}
use lotl.Sql.{quiet}
use lotl.Database.{Database, ConversationRow, MessageRow}
use lotl.History.Types.{StoredMessage, stored_message}
use lotl.History.Statements.{is_in}
use lotl.History.Read.{get_conversation_messages}
use lotl.History.Consistent.{IsConsistent}
use lotl.History.Calls.{HistoryCall, serve}
use lotl.History.Opened.{conversation_of}
use lotl.History.Deletion.Reads.{page_of, page_read}
use lotl.History.Inbox.{Entry, Box, Inbox, entry, box_of, box_in, inbox, steps}
use lotl.History.Inbox.Refines.{Admits, serve-RefinesAll}

module _ {ℓ κ} {A : Type ℓ} {B : Type κ} (f : A → B) where
  take-map : (n : ℕ) (xs : List A) → take n (map f xs) ≡ map f (take n xs)
  take-map zero xs = refl
  take-map (suc n) [] = refl
  take-map (suc n) (x ∷ xs) = λ i. f x ∷ take-map n xs i

  drop-map : (n : ℕ) (xs : List A) → drop n (map f xs) ≡ map f (drop n xs)
  drop-map zero xs = refl
  drop-map (suc n) [] = refl
  drop-map (suc n) (x ∷ xs) = drop-map n xs

-- A message as it is read, without the id of its conversation.
abbrev pub entry_of : StoredMessage → Entry
entry_of m = record {
  id = m.id;
  direction = m.direction;
  timestamp = m.timestamp;
  message_type = m.message_type;
  plaintext = m.plaintext;
  delivery_status = m.delivery_status;
  was_prekey_message = m.was_prekey_message;
  session_established = m.session_established;
}

entries_read :
    (fp : String) (ms : List MessageRow) → map entry_of (map (stored_message fp) ms) ≡ map entry ms
unfolding stored_message
entries_read fp [] = refl
entries_read fp (m ∷ ms) = λ i. entry m ∷ entries_read fp ms i

fingerprints_read :
    (fp : String) (ms : List MessageRow)
    → All (λ m. m.fingerprint ≡ fp) (map (stored_message fp) ms)
unfolding stored_message
fingerprints_read fp [] = tt
fingerprints_read fp (m ∷ ms) = (refl, fingerprints_read fp ms)

abbrev pub page_in : (List Entry → List Entry) → ℕ → ℕ → Option Box → List Entry
page_in by_time limit offset none = []
page_in by_time limit offset (some b) = take limit (drop offset (by_time b.entries))

-- A page of messages of one contact, by the entries that it shows.
pub record PageOf (fp : String) (entries : List Entry) (page : List StoredMessage) : Type 0 where
  pub shows : map entry_of page ≡ entries
  pub sender : All (λ m. m.fingerprint ≡ fp) page

module _ (order : List MessageRow → List MessageRow) (by_time : List Entry → List Entry)
    (sorts : (ms : List MessageRow) → map entry (order ms) ≡ by_time (map entry ms))
    (limit offset : ℕ) where
  page_shown :
      (fp : String) (d : Database) (o : Option ConversationRow)
      → PageOf fp
          (page_in by_time limit offset (Option.map (box_of d.messages) o))
          (page_of order limit offset o fp d)
  unfolding page_of
  page_shown fp d none = record { shows = refl; sender = tt }
  page_shown fp d (some c) =
      let rows = where_rows (is_in c.id) d.messages in
      record {
        shows =
            entries_read fp (take limit (drop offset (order rows)))
            ∙ sym (take-map entry limit (drop offset (order rows)))
            ∙ ap (take limit) (sym (drop-map entry offset (order rows)))
            ∙ ap (λ es. take limit (drop offset es)) (sorts rows);
        sender = fingerprints_read fp (take limit (drop offset (order rows)));
      }

  -- From consistent tables, with an engine that refuses nothing and messages of listed contacts
  -- only, unless the engine does not ask for it, and where ORDER BY sorts the rows as the entries
  -- that they show: after any sequence of storing, marking, deleting and archiving calls, a page
  -- of a contact's messages is read, and shows that page of the entries in the inbox that the
  -- steps of the calls make; each message read names the contact.
  pub get_conversation_messages-serve :
      (calls : List HistoryCall) (d : Database)
      → IsConsistent d
      → All (Admits d.foreign_keys d.contacts) calls
      → (fp : String)
      → (page : List StoredMessage) × ((get_conversation_messages order fp limit offset
            (serve (quiet d) calls)).0
          ≡ ok page)
        × PageOf fp (page_in by_time limit offset ((steps (inbox d) calls).boxes fp)) page
  get_conversation_messages-serve calls d h a fp =
      let s = serve-RefinesAll calls d h a in
      let e : box_in fp s.left ≡ (steps (inbox d) calls).boxes fp =
        ap (λ (i : Inbox). i.boxes fp) s.shows in
      (
        page_of order limit offset (conversation_of fp s.left) fp s.left,
        ap (λ c. (get_conversation_messages order fp limit offset c).0) s.ends
            ∙ page_read order limit offset fp s.left,
        rw (sym e) (page_shown fp s.left (conversation_of fp s.left)),
      )
