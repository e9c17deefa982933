-- ===== src/History/Deletion.antt =====
-- What the deletion of a conversation leaves in the tables, with an engine that refuses nothing.
pub mod Reads
use lotl.Prelude.{
  number_eq, string_eq, ℕ, ◌≡◌, ◌≢◌, refl, sym, ap, ◌∙◌, String, Bool, true, false, Option, none,
  some, List, [], ◌∷◌, ◌==◌, map, take, drop, eq_iff, ==_iff, All, first_where, where_rows,
  delete_where, arith, Bool-cases, Option-cases, inl, inr, if◌then◌else◌,
}
use lotl.Prelude.Rows.{Distinct, All-mono, first_where_holds, All-delete_gain}
use lotl.Prelude.Lookup.{first_where-delete_ne, All_of_first, head_is, first_where_of_All}
use lotl.Exec.{ok, ◌>>=◌, ◌>>◌}
use lotl.Sql.{statement, quiet}
use lotl.Database.{Database, ConversationRow, MessageRow}
use lotl.History.Types.{StoredMessage, stored_message}
use lotl.History.Statements.{
  has_id, is_with, is_in, select_conversation_id, delete_messages, delete_conversation_row,
}
use lotl.History.Manage.{delete_conversation, delete_found}
use lotl.History.Read.{
  as_u32, select_messages, messages_of, get_conversation_messages, unread_of, select_unread_count,
  get_unread_count,
}
use lotl.History.Consistent.{IsConsistent, conversation_id_of, fingerprint_of}
use lotl.History.Opened.{conversation_of}

delete_twice :
    (p : MessageRow → Bool) (xs : List MessageRow)
    → delete_where p (delete_where p xs) ≡ delete_where p xs
delete_twice p [] = refl
delete_twice p (x ∷ xs) = elim (Bool-cases (p x)) [
  | inl e ↦ rw e (delete_twice p xs)
  | inr e ↦ rw (e, e) (λ i. x ∷ delete_twice p xs i)
]

-- The rows of another conversation.
pub where-delete_ne :
    (p q : MessageRow → Bool) (xs : List MessageRow)
    → ((x : MessageRow) → q x ≡ true → p x ≡ false)
    → where_rows p (delete_where q xs) ≡ where_rows p xs
where-delete_ne p q [] k = refl
where-delete_ne p q (x ∷ xs) k = elim (Bool-cases (q x)) [
  | inl e ↦ rw (e, k x e) (where-delete_ne p q xs k)
  | inr e ↦ elim (Bool-cases (p x)) [
    | inl e' ↦ rw (e, e') (λ i. x ∷ where-delete_ne p q xs k i)
    | inr e' ↦ rw (e, e') (where-delete_ne p q xs k)
  ]
]

abbrev pub without : ConversationRow → Database → Database
without c d = record d {
  conversations = delete_where (has_id c.id) d.conversations;
  messages = delete_where (is_in c.id) d.messages;
}

-- ON DELETE CASCADE finds nothing left.
cascaded :
    (enforced : Bool) (p : MessageRow → Bool) (xs : List MessageRow)
    → (if enforced then delete_where p (delete_where p xs) else delete_where p xs)
      ≡ delete_where p xs
cascaded true p xs = delete_twice p xs
cascaded false p xs = refl

pub delete_writes :
    (fp : String) (d : Database) (c : ConversationRow)
    → conversation_of fp d ≡ some c
    → delete_conversation fp (quiet d) ≡ (ok tt, quiet (without c d))
unfolding delete_conversation delete_found select_conversation_id delete_messages
    delete_conversation_row statement ◌>>=◌
delete_writes fp d c e = rw e (
    ap
      (λ (ms : List MessageRow). (
        ok tt,
        quiet (record d {
          conversations = delete_where (has_id c.id) d.conversations;
          messages = ms;
        }),
      ))
      (cascaded d.foreign_keys (is_in c.id) d.messages))

pub delete_none :
    (fp : String) (d : Database)
    → conversation_of fp d ≡ none
    → delete_conversation fp (quiet d) ≡ (ok tt, quiet d)
unfolding delete_conversation delete_found select_conversation_id statement ◌>>=◌
delete_none fp d e = rw e refl

module _ (fp : String) (c : ConversationRow) where
  later :
      (x : ConversationRow) (xs : List ConversationRow)
      → is_with fp x ≡ false
      → first_where (is_with fp) (x ∷ xs) ≡ some c
      → first_where (is_with fp) xs ≡ some c
  later x xs w e = ground arith

  -- With distinct ids, the row that was found is the only one with its id.
  pub own_id :
      (xs : List ConversationRow)
      → Distinct conversation_id_of xs
      → first_where (is_with fp) xs ≡ some c
      → All (λ x. has_id c.id x ≡ true → x.fingerprint ≡ fp) xs
  own_id [] d e = tt
  own_id (x ∷ xs) d e = elim (Bool-cases (is_with fp x)) [
    | inl w ↦ (
      λ h. (eq_iff x.fingerprint fp).0 w,
      All-mono (λ y. x.id ≢ y.id) (λ y. has_id c.id y ≡ true → y.fingerprint ≡ fp) xs
          (λ y ne h. absurd (
            ne (
              ap (λ (z : ConversationRow). z.id) (head_is (is_with fp) x xs c w e)
              ∙ sym ((==_iff y.id c.id).0 h))))
          d.0,
    )
    | inr w ↦ (
      λ h. absurd (
          All_of_first (is_with fp) (λ y. x.id ≢ y.id) xs c d.0 (later x xs w e)
            ((==_iff x.id c.id).0 h)),
      own_id xs d.1 (later x xs w e),
    )
  ]

  -- With distinct fingerprints, it is the only one with its fingerprint.
  own_fingerprint :
      (xs : List ConversationRow)
      → Distinct fingerprint_of xs
      → first_where (is_with fp) xs ≡ some c
      → All (λ x. is_with fp x ≡ true → x.id ≡ c.id) xs
  own_fingerprint [] d e = tt
  own_fingerprint (x ∷ xs) d e = elim (Bool-cases (is_with fp x)) [
    | inl w ↦ (
      λ h. ap (λ (z : ConversationRow). z.id) (head_is (is_with fp) x xs c w e),
      All-mono (λ y. x.fingerprint ≢ y.fingerprint) (λ y. is_with fp y ≡ true → y.id ≡ c.id) xs
          (λ y ne h.
            absurd (ne ((eq_iff x.fingerprint fp).0 w ∙ sym ((eq_iff y.fingerprint fp).0 h))))
          d.0,
    )
    | inr w ↦ (λ h. cc, own_fingerprint xs d.1 (later x xs w e))
  ]

  module _ (d : Database) (h : IsConsistent d) (found : conversation_of fp d ≡ some c) where
    pub gone : conversation_of fp (without c d) ≡ none
    gone = first_where_of_All (is_with fp) _ (
        All-delete_gain (λ x. is_with fp x ≡ true → x.id ≡ c.id) (λ x. is_with fp x ≡ false)
          (has_id c.id) d.conversations (λ x other k. ground (arith, k, ==_iff x.id c.id))
          (own_fingerprint d.conversations h.fingerprints found))

    pub kept : (fp' : String) → fp ≢ fp' → conversation_of fp' (without c d) ≡ conversation_of fp' d
    kept fp' ne = first_where-delete_ne (is_with fp') (has_id c.id) d.conversations (
        All-mono (λ x. has_id c.id x ≡ true → x.fingerprint ≡ fp)
          (λ x. has_id c.id x ≡ true → is_with fp' x ≡ false) d.conversations
          (λ x k i. ground (arith, k, eq_iff x.fingerprint fp'))
          (own_id d.conversations h.conversation_ids found))

    pub other_id :
        (fp' : String) (c' : ConversationRow)
        → fp ≢ fp'
        → conversation_of fp' d ≡ some c'
        → c'.id ≢ c.id
    other_id fp' c' ne found' same = ne (
        sym (
          All_of_first (is_with fp') (λ x. has_id c.id x ≡ true → x.fingerprint ≡ fp)
            d.conversations c' (own_id d.conversations h.conversation_ids found) found'
            ((==_iff c'.id c.id).1 same))
        ∙ (eq_iff c'.fingerprint fp').0 (first_where_holds (is_with fp') d.conversations c' found'))
