-- ===== src/History/Calls/Reach.antt =====
-- Every call keeps the tables consistent, whatever the engine refuses on the way.
use lotl.Prelude.{
  number_eq, ℕ, suc, ◌≡◌, refl, String, Bool, true, false, List, [], ◌∷◌, some, arith, any_where,
  first_where, Option-cases, inl, inr, Bool-cases, All,
}
use lotl.Prelude.Int.{ℤ}
use lotl.Prelude.Rows.{any_where-last, All-deleted}
use lotl.Errors.{database, query_returned_no_rows}
use lotl.Exec.{Result, ok, err, gets, ◌>>=◌, ◌>>◌}
use lotl.Exec.Keeps.{
  Keeps, Gives, GivesAt, Gives-bind, Gives-caught, Keeps-bind, Keeps-caught, Keeps-bind_given,
  bind-keeps_at, keeps_rules,
}
use lotl.Sql.{Connection, statement, Keeps-statement, Gives-statement, statement-keeps_at}
use lotl.Database.{Database, ConversationRow, MessageRow}
use lotl.History.Statements.{
  has_id, is_with, is_in, select_conversation_id, insert_conversation, insert_message,
  delete_messages, new_conversation, NewMessage, update_conversations, count_messages,
  delete_conversation_row,
}
use lotl.History.Store.{
  id_or_new, get_or_create_conversation, update_conversation, store_incoming_message,
  store_outgoing_message,
}
use lotl.History.Manage.{
  update_delivery_status, mark_conversation_read, mark_conversation_read_up_to, delete_message,
  delete_found, delete_conversation, archive_conversation,
}
use lotl.History.Consistent
use lotl.History.Consistent.{IsConsistent, IsConsistent-empty}
use lotl.History.Calls.{
  HistoryCall, incoming, outgoing, set_status, mark_read, mark_read_up_to, remove_message,
  remove_conversation, archive, after, serve,
}

abbrev Sound : Connection Database → Type 0
Sound c = IsConsistent c.tables

abbrev Listed : ℕ → Connection Database → Type 0
Listed id c = any_where (has_id id) c.tables.conversations ≡ true

listed_first :
    (p : ConversationRow → Bool) (xs : List ConversationRow) (c : ConversationRow)
    → first_where p xs ≡ some c
    → any_where (has_id c.id) xs ≡ true
listed_first p [] c h = cc
listed_first p (x ∷ xs) c h = elim (Bool-cases (p x)) [
  | inl e ↦ ground arith
  | inr e ↦ ground (arith, listed_first p xs c)
]

insert_conversation-Listed :
    (fp : String) (d : Database)
    → (insert_conversation fp d).0 ≡ ok tt
    → any_where
        (has_id (insert_conversation fp d).1.last_insert_rowid)
        (insert_conversation fp d).1.conversations
      ≡ true
unfolding insert_conversation
insert_conversation-Listed fp d h = ground (
  arith,
  any_where-last (has_id (suc d.conversations_seq)) d.conversations
      (new_conversation (suc d.conversations_seq) fp) (ground arith),
)

new_id-Listed :
    (fp : String)
    → Gives Sound Listed
        (statement (insert_conversation fp) >> gets (λ c. c.tables.last_insert_rowid))
new_id-Listed fp =
    Gives-bind Sound (λ _ c. Listed c.tables.last_insert_rowid c) Listed _ _
      (Gives-statement IsConsistent
        (λ _ d. any_where (has_id d.last_insert_rowid) d.conversations ≡ true)
        (insert_conversation fp) (λ d h. Consistent.insert_conversation-IsConsistent d h fp)
        (λ d a h e. insert_conversation-Listed fp d e))
      (λ a c h k. (unfold ◌>>=◌ in h, λ b e. unfold ◌>>=◌ in ground arith))

id_or_new-Listed :
    (fp : String) (r : Result ℕ) (c : Connection Database)
    → Sound c
    → ((a : ℕ) → r ≡ ok a → Listed a c)
    → GivesAt Sound Listed (id_or_new fp r c)
unfolding id_or_new ◌>>=◌
id_or_new-Listed fp (ok id) c h k = (h, λ a e. k a e)
id_or_new-Listed fp (err (database query_returned_no_rows)) c h k =
    ((new_id-Listed fp).keeps c h, λ a e. (new_id-Listed fp).gives c a h e)
id_or_new-Listed fp (err _) c h k = (h, λ a e. cc)

select-Listed :
    (fp : String) (d : Database) (a : ℕ)
    → (select_conversation_id fp d).0 ≡ ok a
    → any_where (has_id a) (select_conversation_id fp d).1.conversations ≡ true
unfolding select_conversation_id
select-Listed fp d a h = elim (Option-cases (first_where (is_with fp) d.conversations)) [
  | inl e ↦ ground arith
  | inr (c, e) ↦ ground (arith, listed_first (is_with fp) d.conversations c)
]

select-IsConsistent :
    (fp : String) (d : Database) → IsConsistent d → IsConsistent (select_conversation_id fp d).1
unfolding select_conversation_id
select-IsConsistent fp d h = elim (Option-cases (first_where (is_with fp) d.conversations)) [
  | inl e ↦ rw (e, select_conversation_id) h
  | inr (c, e) ↦ rw (e, select_conversation_id) h
]

select-Gives : (fp : String) → Gives Sound Listed (statement (select_conversation_id fp))
select-Gives fp =
    Gives-statement IsConsistent (λ a d. any_where (has_id a) d.conversations ≡ true)
      (select_conversation_id fp) (select-IsConsistent fp) (λ d a h e. select-Listed fp d a e)

-- The id that it returns is that of a conversation.
pub get_or_create-Listed : (fp : String) → Gives Sound Listed (get_or_create_conversation fp)
unfolding get_or_create_conversation
get_or_create-Listed fp =
    Gives-bind Sound (λ (r : Result ℕ) c. (a : ℕ) → r ≡ ok a → Listed a c) Listed _ _
      (Gives-caught _ (select-Gives fp)) (id_or_new-Listed fp)

update_conversation-Sound :
    (id : ℕ) (t : ℤ) (increment : Bool) → Keeps Sound (update_conversation id t increment)
unfolding update_conversation
update_conversation-Sound id t increment = Keeps-statement _ λ d h.
    Consistent.update_conversations-IsConsistent d h (has_id id) _ (λ c. ground arith)
      (λ c. ground arith)

ruleset sound_rules = (keeps_rules, update_conversation-Sound)

-- An INSERT into a listed conversation, and what follows it.
stored-Sound :
    (m : NewMessage) (rest : Connection Database → Result ℕ × Connection Database)
    (c : Connection Database)
    → Keeps Sound rest
    → Sound c
    → Listed m.conversation_id c
    → Sound ((statement (insert_message m) >> rest) c).1
stored-Sound m rest c k h own =
    bind-keeps_at Sound (statement (insert_message m)) (λ _. rest) c
      (statement-keeps_at IsConsistent (insert_message m) c h
        (Consistent.insert_message-IsConsistent c.tables h m own))
      (λ _. k)

store_incoming-Sound :
    (fp : String) (t : ℤ) (content : List ℕ) (prekey session : Bool)
    → Keeps Sound (store_incoming_message fp t content prekey session)
unfolding store_incoming_message
store_incoming-Sound fp t content prekey session =
    Keeps-bind_given Listed _ _ (get_or_create-Listed fp)
      λ id c h own. stored-Sound _ _ c (search sound_rules) h own

store_outgoing-Sound :
    (fp : String) (t : ℤ) (content : List ℕ) → Keeps Sound (store_outgoing_message fp t content)
unfolding store_outgoing_message
store_outgoing-Sound fp t content =
    Keeps-bind_given Listed _ _ (get_or_create-Listed fp)
      λ id c h own. stored-Sound _ _ c (search sound_rules) h own

-- An UPDATE of conversations that sets neither id nor fingerprint.
updated-Sound :
    (p : ConversationRow → Bool) (f : ConversationRow → ConversationRow)
    → ((c : ConversationRow) → ((f c).id ≡ c.id) × ((f c).fingerprint ≡ c.fingerprint))
    → Keeps Sound (statement (update_conversations p f))
updated-Sound p f same =
    Keeps-statement _ λ d h.
      Consistent.update_conversations-IsConsistent d h p f (λ c. (same c).0) (λ c. (same c).1)

deleted-Sound : (p : MessageRow → Bool) → Keeps Sound (statement (delete_messages p))
deleted-Sound p = Keeps-statement _ λ d h. Consistent.delete_messages-IsConsistent d h p

mark_up_to-Sound : (fp : String) (t : ℤ) → Keeps Sound (mark_conversation_read_up_to fp t)
unfolding mark_conversation_read_up_to
mark_up_to-Sound fp t = Keeps-bind _ _ (Keeps-statement _ (select-IsConsistent fp)) λ id.
    Keeps-bind _ _ (Keeps-statement _ (unfold count_messages in λ d h. h))
      λ n. updated-Sound _ _ (λ c. (refl, refl))

delete_found-Sound : (r : Result ℕ) → Keeps Sound (delete_found r)
unfolding delete_found
delete_found-Sound (ok id) =
    Keeps-bind_given (λ _ c. All (λ m. is_in id m ≡ false) c.tables.messages) _ _
      (Gives-statement IsConsistent (λ _ d. All (λ m. is_in id m ≡ false) d.messages) _
        (λ d h. Consistent.delete_messages-IsConsistent d h (is_in id))
        (λ d a h e. unfold delete_messages in All-deleted (is_in id) d.messages))
      (λ a c h gone.
        statement-keeps_at IsConsistent (delete_conversation_row id) c h
          (Consistent.delete_conversation_row-IsConsistent c.tables h id gone))
delete_found-Sound (err e) = search keeps_rules

delete_conversation-Sound : (fp : String) → Keeps Sound (delete_conversation fp)
unfolding delete_conversation
delete_conversation-Sound fp =
    Keeps-bind _ _ (Keeps-caught _ (Keeps-statement _ (select-IsConsistent fp))) delete_found-Sound

-- One call.
pub after-Sound : (call : HistoryCall) (c : Connection Database) → Sound c → Sound (after call c)
unfolding after update_delivery_status mark_conversation_read delete_message archive_conversation
after-Sound (incoming fp t content prekey session) c h =
    (store_incoming-Sound fp t content prekey session).at c h
after-Sound (outgoing fp t content) c h = (store_outgoing-Sound fp t content).at c h
after-Sound (set_status id status) c h =
    (Keeps-statement _
        λ d k. Consistent.update_messages-IsConsistent d k _ _ (λ m. refl) (λ m. refl)).at
      c h
after-Sound (mark_read fp) c h = (updated-Sound _ _ (λ c. (refl, refl))).at c h
after-Sound (mark_read_up_to fp t) c h = (mark_up_to-Sound fp t).at c h
after-Sound (remove_message id) c h = (deleted-Sound _).at c h
after-Sound (remove_conversation fp) c h = (delete_conversation-Sound fp).at c h
after-Sound (archive fp archived) c h = (updated-Sound _ _ (λ c. (refl, refl))).at c h

-- From consistent tables, any sequence of storing, marking, deleting and archiving calls, whichever
-- statements the engine refuses, ends in consistent tables: distinct ids that AUTOINCREMENT gave,
-- one conversation for a fingerprint at most, and no message without its conversation.
pub serve-IsConsistent :
    (calls : List HistoryCall) (c : Connection Database)
    → IsConsistent c.tables
    → IsConsistent (serve c calls).tables
unfolding serve
serve-IsConsistent [] c h = h
serve-IsConsistent (call ∷ rest) c h = serve-IsConsistent rest (after call c) (after-Sound call c h)
