-- ===== src/History/Deletion/Reads.antt =====
-- What is read after a conversation is deleted, with an engine that refuses nothing.
use lotl.Prelude.{
  number_eq, string_eq, ℕ, ◌≡◌, ◌≢◌, refl, sym, ap, ◌∙◌, String, Option, none, some, List, [], ◌==◌,
  map, take, drop, eq_iff, ==_iff, where_rows, arith, Bool-cases, Option-cases, inl, inr,
  if◌then◌else◌,
}
use lotl.Exec.{ok, ◌>>=◌}
use lotl.Sql.{statement, quiet}
use lotl.Database.{Database, ConversationRow, MessageRow}
use lotl.History.Types.{StoredMessage, stored_message}
use lotl.History.Statements.{is_in, select_conversation_id}
use lotl.History.Manage.{delete_conversation}
use lotl.History.Read.{
  as_u32, select_messages, messages_of, get_conversation_messages, unread_of, select_unread_count,
  get_unread_count,
}
use lotl.History.Consistent.{IsConsistent}
use lotl.History.Opened.{conversation_of}
use lotl.History.Deletion.{
  without, where-delete_ne, delete_writes, delete_none, gone, kept, other_id,
}

module _ (order : List MessageRow → List MessageRow) (limit offset : ℕ) where
  -- What is read of a conversation that is there or not.
  unfoldable pub page_of : Option ConversationRow → String → Database → List StoredMessage
  page_of none fp d = []
  page_of (some c) fp d =
      map (stored_message fp)
        (take limit (drop offset (order (where_rows (is_in c.id) d.messages))))

  pub page_read :
      (fp : String) (d : Database)
      → (get_conversation_messages order fp limit offset (quiet d)).0
        ≡ ok (page_of (conversation_of fp d) fp d)
  unfolding get_conversation_messages messages_of select_conversation_id select_messages statement
      page_of ◌>>=◌
  page_read fp d = elim (Option-cases (conversation_of fp d)) [ inl e ↦ rw e | inr (c, e) ↦ rw e ]

abbrev pub unread_in : Option ConversationRow → ℕ
unread_in none = 0
unread_in (some c) = as_u32 c.unread_count

pub unread_read :
    (fp : String) (d : Database)
    → (get_unread_count fp (quiet d)).0 ≡ ok (unread_in (conversation_of fp d))
unfolding get_unread_count unread_of select_unread_count statement ◌>>=◌
unread_read fp d = elim (Option-cases (conversation_of fp d)) [ inl e ↦ rw e | inr (c, e) ↦ rw e ]

module _ (order : List MessageRow → List MessageRow) (limit offset : ℕ) (fp : String)
    (c : ConversationRow) (d : Database) (h : IsConsistent d)
    (found : conversation_of fp d ≡ some c) where
  same_page :
      (fp' : String)
      → fp ≢ fp'
      → page_of order limit offset (conversation_of fp' d) fp' (without c d)
        ≡ page_of order limit offset (conversation_of fp' d) fp' d
  unfolding page_of
  same_page fp' ne = elim (Option-cases (conversation_of fp' d)) [
    | inl e ↦ rw e refl
    | inr (c', e) ↦ rw e (
        ap (λ ms. map (stored_message fp') (take limit (drop offset (order ms))))
          (where-delete_ne (is_in c'.id) (is_in c.id) d.messages (λ m k. ground (
            arith,
            other_id fp c d h found fp' c' ne e,
            ==_iff m.conversation_id c.id,
            ==_iff m.conversation_id c'.id,
          ))))
  ]

abbrev deleted : Option ConversationRow → Database → Database
deleted none d = d
deleted (some c) d = without c d

module _ (order : List MessageRow → List MessageRow) (limit offset : ℕ) (fp : String) (d : Database)
    (h : IsConsistent d) where
  abbrev left : Database
  left = deleted (conversation_of fp d) d

  left_writes : delete_conversation fp (quiet d) ≡ (ok tt, quiet left)
  left_writes = elim (Option-cases (conversation_of fp d)) [
    | inl e ↦ rw e (delete_none fp d e)
    | inr (c, e) ↦ rw e (delete_writes fp d c e)
  ]

  left_gone : conversation_of fp left ≡ none
  left_gone = elim (Option-cases (conversation_of fp d)) [
    | inl e ↦ rw (e, e) refl
    | inr (c, e) ↦ rw e (gone fp c d h e)
  ]

  left_kept : (fp' : String) → fp ≢ fp' → conversation_of fp' left ≡ conversation_of fp' d
  left_kept fp' ne = elim (Option-cases (conversation_of fp d)) [
    | inl e ↦ rw e refl
    | inr (c, e) ↦ rw e (kept fp c d h e fp' ne)
  ]

  left_page :
      (fp' : String)
      → fp ≢ fp'
      → page_of order limit offset (conversation_of fp' d) fp' left
        ≡ page_of order limit offset (conversation_of fp' d) fp' d
  left_page fp' ne = elim (Option-cases (conversation_of fp d)) [
    | inl e ↦ rw e refl
    | inr (c, e) ↦ rw e (same_page order limit offset fp c d h e fp' ne)
  ]

  page_left :
      (fp' : String)
      → (get_conversation_messages order fp' limit offset (quiet left)).0 ≡ (
          if fp == fp'
          then ok []
          else (get_conversation_messages order fp' limit offset (quiet d)).0)
  unfolding page_of
  page_left fp' = elim (Bool-cases (fp == fp')) [
    | inl e ↦ rw e (
        page_read order limit offset fp' left
        ∙ ap (λ o. ok (page_of order limit offset o fp' left))
            (ap (λ x. conversation_of x left) (sym ((eq_iff fp fp').0 e)) ∙ left_gone))
    | inr e ↦
        let ne : fp ≢ fp' = ground (arith, eq_iff fp fp') in
        rw e (
          page_read order limit offset fp' left
          ∙ ap (λ o. ok (page_of order limit offset o fp' left)) (left_kept fp' ne)
          ∙ ap (λ ms. ok ms) (left_page fp' ne)
          ∙ sym (page_read order limit offset fp' d))
  ]

  unread_left :
      (fp' : String)
      → (get_unread_count fp' (quiet left)).0
        ≡ (if fp == fp' then ok 0 else (get_unread_count fp' (quiet d)).0)
  unread_left fp' = elim (Bool-cases (fp == fp')) [
    | inl e ↦ rw e (
        unread_read fp' left
        ∙ ap (λ o. ok (unread_in o))
            (ap (λ x. conversation_of x left) (sym ((eq_iff fp fp').0 e)) ∙ left_gone))
    | inr e ↦ rw e (
        unread_read fp' left
        ∙ ap (λ o. ok (unread_in o)) (left_kept fp' (ground (arith, eq_iff fp fp')))
        ∙ sym (unread_read fp' d))
  ]

  -- From consistent tables, with an engine that refuses nothing: the deletion of a conversation,
  -- listed or not, succeeds; then no page of it has a message and its unread count is 0, and the
  -- pages and the unread count of every other contact are what they were.
  reads-delete_conversation :
      (fp' : String)
      → ((delete_conversation fp (quiet d)).0 ≡ ok tt)
        × ((get_conversation_messages order fp' limit offset (delete_conversation fp (quiet d)).1).0
            ≡ (if fp == fp'
                then ok []
                else (get_conversation_messages order fp' limit offset (quiet d)).0))
        × ((get_unread_count fp' (delete_conversation fp (quiet d)).1).0
            ≡ (if fp == fp' then ok 0 else (get_unread_count fp' (quiet d)).0))
  reads-delete_conversation fp' = rw left_writes (refl, page_left fp', unread_left fp')
