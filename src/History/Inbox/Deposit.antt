-- ===== src/History/Inbox/Deposit.antt =====
-- The boxes after a conversation is opened and a message stored in it.
use lotl.Prelude.{
  string_eq, number_eq, ℕ, suc, ◌≤◌, ◌≡◌, ◌≢◌, refl, sym, ap, ◌∙◌, String, Bool, true, false, some,
  List, [], ◌∷◌, ◌++◌, ◌==◌, eq_iff, ==_iff, arith, any_where, where_rows, All, Bool-cases,
  Option-cases, inl, inr,
}
use mathlib.Core.Option as Option
use lotl.Prelude.Rows.{All-mono}
use lotl.Prelude.Lookup.{first_where-last_ne}
use lotl.Exec.{Result}
use lotl.Sql.{Connection, quiet}
use lotl.Database.{Database, ConversationRow}
use lotl.History.Statements.{has_id, is_with, is_in, new_conversation, NewMessage, message_row}
use lotl.History.Store.{touched}
use lotl.History.Consistent.{IsConsistent}
use lotl.History.Calls.Reach.{get_or_create-Listed}
use lotl.History.Opened.{
  conversation_of, IsAdmitted, opened, open_in, get_or_create_writes, deposited, touched_same,
}
use lotl.History.RoundTrip.{touched_id}
use lotl.History.Deletion.{other_id}
use lotl.History.Inbox.{new_box, entry, filled, box_of, box_in}
use lotl.History.Inbox.Shown.{where_rows-append_one, shown-append_one, where_rows_none}
use lotl.History.Inbox.Tables.{id_update_own, id_update_ne, same_box}

module _ (fp : String) (d : Database) (h : IsConsistent d) (c : ConversationRow)
    (found : conversation_of fp d ≡ some c) (m : NewMessage) (increment : Bool)
    (own : m.conversation_id ≡ c.id) where
  touched_own :
      conversation_of fp (deposited m increment d) ≡ some (touched m.timestamp increment c)
  touched_own = rw own (
      id_update_own fp d h c found (touched m.timestamp increment)
        (touched_same m.timestamp increment))

  pub deposited_own :
      box_in fp (deposited m increment d)
      ≡ some (
          filled
            ((box_of d.messages c).entries ++ entry (message_row (suc d.messages_seq) m) ∷ [])
            (touched m.timestamp increment c))
  deposited_own =
      ap (Option.map (box_of (deposited m increment d).messages)) touched_own
      ∙ rw (touched_id m.timestamp increment c) (
          ap (λ es. some (filled es (touched m.timestamp increment c)))
            (shown-append_one entry (is_in c.id) d.messages (message_row (suc d.messages_seq) m)
              ((==_iff m.conversation_id c.id).1 own)))

  pub deposited_ne : (fp' : String) → fp ≢ fp' → box_in fp' (deposited m increment d) ≡ box_in fp' d
  deposited_ne fp' ne =
      same_box fp d (deposited m increment d) fp'
        (rw own (
          id_update_ne fp d h c found (touched m.timestamp increment)
            (touched_same m.timestamp increment) fp' ne))
        (λ c' found'.
          where_rows-append_one (is_in c'.id) d.messages (message_row (suc d.messages_seq) m)
          ∙ (let ne' = other_id fp c d h found fp' c' ne found' in
              let e : (m.conversation_id == c'.id) ≡ false =
                ground (arith, ==_iff m.conversation_id c'.id) in
              rw e refl))

listed_given :
    (k n : ℕ) (cs : List ConversationRow)
    → All (λ c. c.id ≤ n) cs
    → any_where (has_id k) cs ≡ true
    → k ≤ n
listed_given k n [] h e = cc
listed_given k n (c ∷ cs) h e = elim (Bool-cases (has_id k c)) [
  | inl i ↦ omega (arith, h.0, (==_iff c.id k).0 i)
  | inr i ↦ listed_given k n cs h.1 (ground arith)
]

module _ (fp : String) (d : Database) (h : IsConsistent d) where
  no_messages : where_rows (is_in (suc d.conversations_seq)) d.messages ≡ []
  no_messages = where_rows_none (is_in (suc d.conversations_seq)) d.messages (
      All-mono (λ m. any_where (has_id m.conversation_id) d.conversations ≡ true)
        (λ m. is_in (suc d.conversations_seq) m ≡ false) d.messages
        (λ m k. ground (
          arith,
          listed_given m.conversation_id d.conversations_seq d.conversations
              h.conversation_ids_given k,
          ==_iff m.conversation_id (suc d.conversations_seq),
        ))
        h.owned)

  -- The conversation that is opened is the box, or a new one.
  pub opened_box :
      box_of (open_in fp d (conversation_of fp d)).messages (opened fp d (conversation_of fp d))
      ≡ new_box (box_in fp d)
  opened_box = elim (Option-cases (conversation_of fp d)) [
    | inl e ↦ rw (e, no_messages) refl
    | inr (c, e) ↦ rw e refl
  ]

  pub open_ne :
      (fp' : String) → fp ≢ fp' → box_in fp' (open_in fp d (conversation_of fp d)) ≡ box_in fp' d
  open_ne fp' ne = elim (Option-cases (conversation_of fp d)) [
    | inl e ↦ rw e (
        ap (Option.map (box_of d.messages)) (
          first_where-last_ne (is_with fp') d.conversations
            (new_conversation (suc d.conversations_seq) fp) (ground (arith, eq_iff fp fp'))))
    | inr (c, e) ↦ rw e refl
  ]

  pub open-IsConsistent : IsAdmitted fp d → IsConsistent (open_in fp d (conversation_of fp d))
  open-IsConsistent a =
      let e =
        ap (λ (p : Result ℕ × Connection Database). p.1.tables) (get_or_create_writes fp d a) in
      rw (sym e) ((get_or_create-Listed fp).keeps (quiet d) h)
