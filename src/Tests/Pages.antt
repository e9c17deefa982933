-- ===== src/Tests/Pages.antt =====
-- Reading page by page, with ORDER BY as a reversal.
use lotl.Prelude.{
  number_eq, ◌+◌, ◌≡◌, refl, Bool, false, List, [], ◌∷◌, ◌++◌, count_where, ◌&&◌, arith,
  if◌then◌else◌,
}
use lotl.Prelude.Int.{pos}
use lotl.Exec.{ok}
use lotl.Sql.{quiet}
use lotl.Database.{MessageRow, ConversationRow}
use lotl.History.Types.{StoredMessage, stored_message}
use lotl.History.Statements.{is_in}
use lotl.History.Pages.{read_pages, read_pages_complete}
use lotl.Tests.Messages.{with_bob}

abbrev newest_first : List MessageRow → List MessageRow
newest_first [] = []
newest_first (m ∷ ms) = newest_first ms ++ m ∷ []

count-append_one :
    (p : MessageRow → Bool) (xs : List MessageRow) (m : MessageRow)
    → count_where p (xs ++ m ∷ []) ≡ (if p m then 1 else 0) + count_where p xs
count-append_one p [] m = omega arith
count-append_one p (x ∷ xs) m = omega (arith, count-append_one p xs m)

newest_first-keeps :
    (p : MessageRow → Bool) (xs : List MessageRow)
    → count_where p (newest_first xs) ≡ count_where p xs
newest_first-keeps p [] = refl
newest_first-keeps p (m ∷ ms) =
    omega (arith, newest_first-keeps p ms, count-append_one p (newest_first ms) m)

abbrev bob : ConversationRow
bob = record {
  id = 3;
  fingerprint = "bob";
  last_message_timestamp = pos 5;
  unread_count = 1;
  archived = false;
}

read_pages_complete_example :
    (ms : List StoredMessage) × (read_pages newest_first "bob" 1 0 2 (quiet with_bob)
      ≡ (ok ms, quiet with_bob))
    × ((p : StoredMessage → Bool)
        → count_where p ms
          ≡ count_where (λ m. is_in 3 m && p (stored_message "bob" m)) with_bob.messages)
read_pages_complete_example =
    read_pages_complete newest_first "bob" with_bob bob refl newest_first-keeps 1 2 (omega arith)
