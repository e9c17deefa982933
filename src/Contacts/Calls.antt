-- ===== src/Contacts/Calls.antt =====
-- Calls of src/contact_manager.rs that add and rename contacts, one after another.
use lotl.Prelude.{ℕ, String, Option, List, [], ◌∷◌}
use lotl.Sql.{Connection}
use lotl.Database.{Database}
use lotl.Contacts.{Hashing, Clock, add_contact, update_contact_alias}

pub data ContactCall : Type 0 where
  add : List ℕ → Option String → String → String → ContactCall
  rename : String → Option String → ContactCall

-- One call at a time that the clock shows.
unfoldable pub after : Hashing → Clock × ContactCall → Connection Database → Connection Database
after h (clock, add key alias salt prefix) c = (add_contact h clock key alias salt prefix c).1
after h (clock, rename fp alias) c = (update_contact_alias clock fp alias c).1

unfoldable pub serve :
    Hashing → Connection Database → List (Clock × ContactCall) → Connection Database
unfolding after
serve h c [] = c
serve h c (call ∷ rest) = serve h (after h call c) rest
