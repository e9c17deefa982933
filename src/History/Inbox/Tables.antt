-- ===== src/History/Inbox/Tables.antt =====
-- How the boxes change with the tables.
use lotl.Prelude.{
  string_eq, number_eq, zero, suc, ◌≡◌, ◌≢◌, refl, sym, ap, ◌∙◌, String, true, false, ◌&&◌, Option,
  none, some, List, ◌==◌, map, eq_iff, arith, first_where, where_rows, update_where, count_where,
  Bool-cases, Option-cases, inl, inr,
}
use mathlib.Core.Option as Option
use lotl.Prelude.Int.{ℤ, pos, negsuc, ltb_ℤ}
use lotl.Prelude.Rows.{All-mono}
use lotl.Prelude.Lookup.{first_where-update, first_where-update_ne}
use lotl.Database.{Database, ConversationRow, MessageRow}
use lotl.History.Types.{direction_from}
use lotl.History.Statements.{has_id, is_with, is_in}
use lotl.History.Manage.{is_incoming, is_unread_after}
use lotl.History.Consistent.{IsConsistent}
use lotl.History.Opened.{conversation_of}
use lotl.History.Unread.{first-update_id}
use lotl.History.Deletion.{own_id}
use lotl.History.Inbox.{
  Box, put, is_received, is_unread, count_unread, entry, filled, box_of, box_in,
}
use lotl.History.Inbox.Shown.{first-update_apart, shown-count}

reads_direction :
    (z : ℤ) → is_received (direction_from z) ≡ elim z [ pos n ↦ n == 0 | negsuc n ↦ false ]
unfolding direction_from
reads_direction (pos zero) = refl
reads_direction (pos (suc n)) = ground arith
reads_direction (negsuc n) = refl

pub reads_unread :
    (t : ℤ) (m : MessageRow) → is_unread t (entry m) ≡ (is_incoming m && ltb_ℤ t m.timestamp)
reads_unread t m = ap (λ b. b && ltb_ℤ t m.timestamp) (reads_direction m.direction)

module _ (fp : String) (d : Database) where
  -- One box changed.
  pub one_box :
      (d' : Database) (b : Option Box)
      → box_in fp d' ≡ b
      → ((fp' : String) → fp ≢ fp' → box_in fp' d' ≡ box_in fp' d)
      → (fp' : String) → box_in fp' d' ≡ put fp b (λ x. box_in x d) fp'
  one_box d' b own others fp' = elim (Bool-cases (fp == fp')) [
    | inl e ↦ rw e (ap (λ x. box_in x d') (sym ((eq_iff fp fp').0 e)) ∙ own)
    | inr e ↦ rw e (others fp' (ground (arith, eq_iff fp fp')))
  ]

  abbrev pub with_rows : List ConversationRow → Database
  with_rows rows = record d { conversations = rows }

  -- An UPDATE of the conversation with the fingerprint.
  pub row_update :
      (f : ConversationRow → ConversationRow) (g : Box → Box)
      → ((c : ConversationRow) → (f c).fingerprint ≡ c.fingerprint)
      → ((c : ConversationRow) → box_of d.messages (f c) ≡ g (box_of d.messages c))
      → (fp' : String)
      → box_in fp' (with_rows (update_where (is_with fp) f d.conversations))
        ≡ put fp (Option.map g (box_in fp d)) (λ x. box_in x d) fp'
  row_update f g same shows =
      one_box (with_rows (update_where (is_with fp) f d.conversations)) _
        (ap (Option.map (box_of d.messages))
            (first_where-update (is_with fp) f d.conversations (λ x. rw (same x) refl))
          ∙ shown (conversation_of fp d))
        (λ fp' ne. ap (Option.map (box_of d.messages)) (
          first_where-update_ne (is_with fp') (is_with fp) f d.conversations
            (λ x k. ground (arith, k, eq_iff x.fingerprint fp, eq_iff x.fingerprint fp'))
            (λ x k.
              ground (arith, k, same x, eq_iff x.fingerprint fp, eq_iff (f x).fingerprint fp'))))
    where
      shown :
          (o : Option ConversationRow)
          → Option.map (box_of d.messages) (Option.map f o)
            ≡ Option.map g (Option.map (box_of d.messages) o)
      shown none = refl
      shown (some c) = ap some (shows c)

  -- An UPDATE by the id of the conversation with the fingerprint.
  module _ (h : IsConsistent d) (c : ConversationRow) (found : conversation_of fp d ≡ some c)
      (f : ConversationRow → ConversationRow)
      (same : (x : ConversationRow) → (f x).fingerprint ≡ x.fingerprint) where
    pub id_update_own :
        first_where (is_with fp) (update_where (has_id c.id) f d.conversations) ≡ some (f c)
    id_update_own = first-update_id fp f same d.conversations c found

    pub id_update_ne :
        (fp' : String)
        → fp ≢ fp'
        → first_where (is_with fp') (update_where (has_id c.id) f d.conversations)
          ≡ conversation_of fp' d
    id_update_ne fp' ne =
        first-update_apart (is_with fp') (has_id c.id) f d.conversations (λ x. rw (same x) refl)
          (All-mono (λ x. has_id c.id x ≡ true → x.fingerprint ≡ fp)
            (λ x. has_id c.id x ≡ true → is_with fp' x ≡ false) d.conversations
            (λ x k i. ground (arith, k, eq_iff x.fingerprint fp'))
            (own_id fp c d.conversations h.conversation_ids found))

  -- Changes of messages that the other conversations do not show.
  pub same_box :
      (d' : Database) (fp' : String)
      → conversation_of fp' d' ≡ conversation_of fp' d
      → ((c : ConversationRow)
          → conversation_of fp' d ≡ some c
          → where_rows (is_in c.id) d'.messages ≡ where_rows (is_in c.id) d.messages)
      → box_in fp' d' ≡ box_in fp' d
  same_box d' fp' e k = elim (Option-cases (conversation_of fp' d)) [
    | inl n ↦ rw (e, n) refl
    | inr (c, n) ↦ rw (e, n) (ap (λ (ms : List MessageRow). some (filled (map entry ms) c)) (k c n))
  ]

  pub up_to_update :
      IsConsistent d
      → (t : ℤ) (c : ConversationRow) → conversation_of fp d ≡ some c
      → (fp' : String)
      → box_in fp' (
          with_rows (
            update_where
              (has_id c.id)
              (λ x. record x { unread_count = count_where (is_unread_after c.id t) d.messages })
              d.conversations))
        ≡ put fp (Option.map (count_unread t) (box_in fp d)) (λ x. box_in x d) fp'
  up_to_update h t c found =
      let n = count_where (is_unread_after c.id t) d.messages in
      let f : ConversationRow → ConversationRow = λ x. record x { unread_count = n } in
      one_box (with_rows (update_where (has_id c.id) f d.conversations)) _
        (ap (Option.map (box_of d.messages)) (id_update_own h c found f (λ x. refl))
          ∙ rw found (
              ap (λ k. some (record (box_of d.messages c) { unread_count = k }))
                (shown-count entry (is_in c.id) (λ m. is_incoming m && ltb_ℤ t m.timestamp)
                  (is_unread t) (reads_unread t) (is_unread_after c.id t) d.messages
                  (λ m. ground arith))))
        (λ fp' ne.
          ap (Option.map (box_of d.messages)) (id_update_ne h c found f (λ x. refl) fp' ne))
