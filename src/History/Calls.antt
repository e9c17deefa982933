-- ===== src/History/Calls.antt =====
-- The public methods of src/message_history.rs that change the tables, as calls, and what any
-- sequence of them keeps, whatever the engine refuses on the way.
pub mod Reach
use lotl.Prelude.{
  ℕ, ◌≡◌, refl, String, Bool, true, false, List, [], ◌∷◌, All, any_where, number_eq, ap, arith,
  first_where, none, some, Option-cases, inl, inr, delete_where,
}
use lotl.Prelude.Int.{ℤ}
use lotl.Prelude.Rows.{any_where-last, any_where_of_first, first_where_holds, All-deleted, All-mono}
use lotl.Errors.{LotlError, database, query_returned_no_rows}
use lotl.Exec.{Result, ok, err, Exec, pure, caught, gets, ◌>>=◌, ◌>>◌}
use lotl.Exec.Keeps.{Keeps, Gives, Keeps-bind_given, keeps_rules}
use lotl.Sql.{Connection, statement, Keeps-statement}
use lotl.Database.{Database, Db}
use lotl.History.Types.{DeliveryStatus}
use lotl.History.Statements
use lotl.History.Statements.{has_id, is_in, is_with}
use lotl.History.Store
use lotl.History.Manage
use lotl.History.Consistent.{IsConsistent}

pub data HistoryCall : Type 0 where
  incoming : String → ℤ → List ℕ → Bool → Bool → HistoryCall
  outgoing : String → ℤ → List ℕ → HistoryCall
  set_status : ℕ → DeliveryStatus → HistoryCall
  mark_read : String → HistoryCall
  mark_read_up_to : String → ℤ → HistoryCall
  remove_message : ℕ → HistoryCall
  remove_conversation : String → HistoryCall
  archive : String → Bool → HistoryCall

-- The caller drops the result, and goes on from the state that the call left.
unfoldable pub after : HistoryCall → Connection Database → Connection Database
after (incoming fp t content prekey session) c =
    (Store.store_incoming_message fp t content prekey session c).1
after (outgoing fp t content) c = (Store.store_outgoing_message fp t content c).1
after (set_status id status) c = (Manage.update_delivery_status id status c).1
after (mark_read fp) c = (Manage.mark_conversation_read fp c).1
after (mark_read_up_to fp t) c = (Manage.mark_conversation_read_up_to fp t c).1
after (remove_message id) c = (Manage.delete_message id c).1
after (remove_conversation fp) c = (Manage.delete_conversation fp c).1
after (archive fp archived) c = (Manage.archive_conversation fp archived c).1

unfoldable pub serve : Connection Database → List HistoryCall → Connection Database
unfolding after
serve c [] = c
serve c (call ∷ rest) = serve (after call c) rest
