-- ===== src/History/Inbox/Listing.antt =====
-- The conversations that src/message_history.rs lists of the inbox after any calls, with an
-- engine that refuses nothing.
use lotl.Prelude.{
  string_eq, ℕ, ◌≡◌, ◌≢◌, refl, sym, ap, ◌∙◌, String, Bool, true, false, not, ◌&&◌, ◌||◌, Option,
  none, some, List, [], ◌∷◌, ◌==◌, eq_iff, map, arith, if◌then◌else◌, where_rows, first_where,
  count_where, count_where-where_rows, count_where-map, All, Bool-cases, inl, inr,
}
use mathlib.Core.Option as Option
use lotl.Prelude.Rows.{Distinct, All-mono}
use lotl.Exec.{ok}
use lotl.Sql.{Connection, statement, quiet}
use lotl.Database.{Database, ConversationRow}
use lotl.History.Types.{ExtendedConversationRecord}
use lotl.History.Statements.{is_with}
use lotl.History.Read.{extended_record, get_conversations}
use lotl.History.Consistent.{IsConsistent, fingerprint_of}
use lotl.History.Calls.{HistoryCall, serve}
use lotl.History.Calls.Reach.{serve-IsConsistent}
use lotl.History.Opened.{conversation_of, and_false}
use lotl.History.Inbox.{Box, Inbox, box_of, box_in, inbox, steps}
use lotl.History.Inbox.Refines.{Admits, serve-RefinesAll}

module _ {ℓ} {A : Type ℓ} where
  count_where_none : (p : A → Bool) (xs : List A) → All (λ x. p x ≡ false) xs → count_where p xs ≡ 0
  count_where_none p [] h = refl
  count_where_none p (x ∷ xs) h = rw (h.0) (omega (arith, count_where_none p xs h.1))

abbrev counted : (ConversationRow → Bool) → Option ConversationRow → ℕ
counted q none = 0
counted q (some c) = if q c then 1 else 0

and_true : (b : Bool) → (b && true) ≡ b
and_true true = refl
and_true false = refl

-- With distinct fingerprints, the row with the fingerprint is counted once.
count-first :
    (fp : String) (q : ConversationRow → Bool) (xs : List ConversationRow)
    → Distinct fingerprint_of xs
    → count_where (λ c. q c && is_with fp c) xs ≡ counted q (first_where (is_with fp) xs)
count-first fp q [] h = refl
count-first fp q (x ∷ xs) h = elim (Bool-cases (is_with fp x)) [
  | inl e ↦
      let others =
        count_where_none (λ c. q c && is_with fp c) xs
          (All-mono (λ y. x.fingerprint ≢ y.fingerprint) (λ y. (q y && is_with fp y) ≡ false) xs
            (λ y ne. ground (arith, ne, e, eq_iff x.fingerprint fp, eq_iff y.fingerprint fp))
            h.0) in
      rw (e, and_true (q x), others) (omega arith)
  | inr e ↦ rw (e, and_false (q x)) (omega (arith, count-first fp q xs h.1))
]

-- How often a contact is listed.
abbrev pub listed : Bool → Option Box → ℕ
listed include_archived none = 0
listed include_archived (some b) = if include_archived || not b.archived then 1 else 0

module _ (order : List ConversationRow → List ConversationRow)
    (keeps : (p : ConversationRow → Bool) (cs : List ConversationRow)
      → count_where p (order cs) ≡ count_where p cs) where
  -- The rows that the query selects.
  abbrev selected : Bool → Database → List ConversationRow
  selected include_archived d =
      if include_archived then d.conversations else where_rows (λ c. not c.archived) d.conversations

  listed_once :
      (fp : String) (include_archived : Bool) (d : Database)
      → IsConsistent d
      → count_where (is_with fp) (selected include_archived d)
        ≡ listed include_archived (box_in fp d)
  listed_once fp true d h =
      count-first fp (λ c. true) d.conversations h.fingerprints ∙ same (conversation_of fp d)
    where
      same :
          (o : Option ConversationRow)
          → counted (λ c. true) o ≡ listed true (Option.map (box_of d.messages) o)
      same none = refl
      same (some c) = refl
  listed_once fp false d h =
      count_where-where_rows (is_with fp) (λ c. not c.archived) d.conversations
      ∙ count-first fp (λ c. not c.archived) d.conversations h.fingerprints
      ∙ same (conversation_of fp d)
    where
      same :
          (o : Option ConversationRow)
          → counted (λ c. not c.archived) o ≡ listed false (Option.map (box_of d.messages) o)
      same none = refl
      same (some c) = refl

  -- From consistent tables, with an engine that refuses nothing and messages of listed contacts only,
  -- unless the engine does not ask for it, and where ORDER BY loses no row and adds none: after any
  -- sequence of storing, marking, deleting and archiving calls, the conversations are listed, each
  -- contact once that has a box in the inbox that the steps of the calls make, the archived ones only
  -- if they are asked for, and no other contact.
  pub get_conversations-serve :
      (calls : List HistoryCall) (d : Database)
      → IsConsistent d
      → All (Admits d.foreign_keys d.contacts) calls
      → (include_archived : Bool)
      → (conversations : List ExtendedConversationRecord) × ((get_conversations order
            include_archived
            (serve (quiet d) calls)).0
          ≡ ok conversations)
        × ((fp : String)
            → count_where (λ c. c.fingerprint == fp) conversations
              ≡ listed include_archived ((steps (inbox d) calls).boxes fp))
  unfolding get_conversations statement
  get_conversations-serve calls d h a include_archived =
      let s = serve-RefinesAll calls d h a in
      let k : IsConsistent s.left =
        rw (sym (ap (λ (c : Connection Database). c.tables) s.ends))
          (serve-IsConsistent calls (quiet d) h) in
      (
        map extended_record (order (selected include_archived s.left)),
        ap (λ c. (get_conversations order include_archived c).0) s.ends,
        λ fp.
            count_where-map (λ c. c.fingerprint == fp) extended_record
              (order (selected include_archived s.left))
            ∙ keeps (is_with fp) (selected include_archived s.left)
            ∙ listed_once fp include_archived s.left k
            ∙ ap (λ (i : Inbox). listed include_archived (i.boxes fp)) s.shows,
      )
