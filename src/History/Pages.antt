-- ===== src/History/Pages.antt =====
-- Reading a conversation page by page, with an engine that refuses nothing.
use lotl.Prelude.{
  number_eq, string_eq, ℕ, zero, suc, ◌+◌, ◌*◌, ◌≤◌, ◌≡◌, refl, sym, ap, ◌∙◌, String, Bool, ◌&&◌,
  true, some, List, [], ◌++◌, map, take, drop, take-add, drop-drop, take_all, count_where-map,
  count_where-where_rows, count_where_all, length-where_rows, where_rows, count_where, arith,
}
use mathlib.Core.List.{map-append}
use lotl.Exec.{ok, pure, ◌>>=◌}
use lotl.Sql.{statement, quiet}
use lotl.Database.{Database, Db, ConversationRow, MessageRow}
use lotl.History.Types.{StoredMessage, stored_message}
use lotl.History.Statements.{is_in, select_conversation_id}
use lotl.History.Read.{select_messages, messages_of, get_conversation_messages}
use lotl.History.Opened.{conversation_of}

-- A caller reads `count` pages of `limit` messages, from an offset on.
unfoldable pub read_pages :
    (List MessageRow → List MessageRow) → String → ℕ → ℕ → ℕ → Db (List StoredMessage)
unfolding get_conversation_messages
read_pages order fingerprint limit offset zero = pure []
read_pages order fingerprint limit offset (suc count) = do
  page ← get_conversation_messages order fingerprint limit offset
  rest ← read_pages order fingerprint limit (offset + limit) count
  pure (page ++ rest)

module _ (order : List MessageRow → List MessageRow) (fp : String) (d : Database)
    (c : ConversationRow) (found : conversation_of fp d ≡ some c) where
  abbrev ordered : List MessageRow
  ordered = order (where_rows (is_in c.id) d.messages)

  page_read :
      (limit offset : ℕ)
      → get_conversation_messages order fp limit offset (quiet d)
        ≡ (ok (map (stored_message fp) (take limit (drop offset ordered))), quiet d)
  unfolding get_conversation_messages messages_of select_conversation_id select_messages statement
      ◌>>=◌
  page_read limit offset = rw found

  pages_read :
      (limit offset count : ℕ)
      → read_pages order fp limit offset count (quiet d)
        ≡ (ok (map (stored_message fp) (take (count * limit) (drop offset ordered))), quiet d)
  unfolding read_pages ◌>>=◌
  pages_read limit offset zero = let e : 0 * limit ≡ 0 = omega arith in rw e refl
  pages_read limit offset (suc count) =
      let e : suc count * limit ≡ limit + count * limit = grind arith in
      rw
        (
          page_read limit offset,
          pages_read limit (offset + limit) count,
          e,
          sym (take-add limit (count * limit) (drop offset ordered)),
          drop-drop offset limit ordered,
        )
        (ap (λ ms. (ok ms, quiet d))
          (sym (map-append (stored_message fp) (take limit (drop offset ordered)) _)))

  -- Where ORDER BY keeps the rows: on tables with a conversation, with an engine that refuses
  -- nothing, reading enough pages of any size one after another succeeds, changes nothing, and
  -- gives every message of the conversation, as often as it is stored, and no other.
  pub read_pages_complete :
      ((p : MessageRow → Bool) (xs : List MessageRow) → count_where p (order xs) ≡ count_where p xs)
      → (limit count : ℕ) → count_where (is_in c.id) d.messages ≤ count * limit
      → (ms : List StoredMessage) × (read_pages order fp limit 0 count (quiet d) ≡ (ok ms, quiet d))
        × ((p : StoredMessage → Bool)
            → count_where p ms
              ≡ count_where (λ m. is_in c.id m && p (stored_message fp m)) d.messages)
  read_pages_complete keeps limit count enough = (
    map (stored_message fp) ordered,
    pages_read limit 0 count
        ∙ ap (λ ms. (ok (map (stored_message fp) ms), quiet d))
            (take_all (count * limit) ordered (
              rw
                (sym (count_where_all ordered)
                  ∙ keeps (λ m. true) (where_rows (is_in c.id) d.messages)
                  ∙ count_where_all (where_rows (is_in c.id) d.messages)
                  ∙ length-where_rows (is_in c.id) d.messages)
                enough)),
    λ p.
        count_where-map p (stored_message fp) ordered
        ∙ keeps (λ m. p (stored_message fp m)) (where_rows (is_in c.id) d.messages)
        ∙ count_where-where_rows (λ m. p (stored_message fp m)) (is_in c.id) d.messages,
  )
