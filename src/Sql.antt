-- ===== src/Sql.antt =====
-- A rusqlite connection. SQL statements are functions on the tables; the engine may refuse any
-- statement (a lock, a full disk), which changes no table.
use lotl.Prelude.{◌≡◌, refl, ◌∙◌, sym, ap, Option, none, some, List, [], ◌∷◌}
use lotl.Errors.{SqliteError, database}
use lotl.Exec.{Result, ok, err, Exec}
use lotl.Exec.Keeps.{Keeps, Gives}

-- `faults` is what the engine will answer to the next statements; past its end it refuses none.
pub record Connection (T : Type 0) : Type 0 where
  pub tables : T
  pub faults : List (Option SqliteError)

-- A connection whose engine refuses nothing.
abbrev pub quiet : {T : Type 0} → T → Connection T
quiet t = record { tables = t; faults = [] }

module _ {T A : Type 0} where
  run : (T → Result A × T) → T → List (Option SqliteError) → Result A × Connection T
  run f t rest = let (r, t') = f t in (r, record { tables = t'; faults = rest })

  answer : List (Option SqliteError) → (T → Result A × T) → T → Result A × Connection T
  unfolding run
  answer [] f t = run f t []
  answer (none ∷ rest) f t = run f t rest
  answer (some e ∷ rest) f t = (err (database e), record { tables = t; faults = rest })

  -- `execute`, `query_row` and `query_map`: one statement, whole or refused.
  unfoldable pub statement : (T → Result A × T) → Exec (Connection T) A
  unfolding answer
  statement f c = answer c.faults f c.tables

-- CREATE TABLE IF NOT EXISTS and CREATE INDEX IF NOT EXISTS, of a table that the model has from the
-- start: they change no row.
abbrev pub create : {T : Type 0} → Exec (Connection T) (Unit {0})
create = statement (λ t. (ok tt, t))

-- The tables of one component among those of the database.
pub record Part (T U : Type 0) : Type 0 where
  pub get : T → U
  pub put : U → T → T

-- A component's action on the connection that all components share.
unfoldable pub within : {T U A : Type 0} → Part T U → Exec (Connection U) A → Exec (Connection T) A
within part m c =
    let (r, c') = m (record { tables = part.get c.tables; faults = c.faults }) in
    (r, record { tables = part.put c'.tables c.tables; faults = c'.faults })

module _ {κ} {T A : Type 0} {P : T → Type κ} where
  answer-keeps :
      (l : List (Option SqliteError)) (f : T → Result A × T) (t : T)
      → ((u : T) → P u → P (f u).1)
      → P t
      → P (answer l f t).1.tables
  unfolding answer
  answer-keeps [] f t k h = k t h
  answer-keeps (none ∷ rest) f t k h = k t h
  answer-keeps (some e ∷ rest) f t k h = h

  pub Keeps-statement :
      (f : T → Result A × T)
      → ((u : T) → P u → P (f u).1)
      → Keeps (λ (c : Connection T). P c.tables) (statement f)
  unfolding statement
  Keeps-statement f k = record { at = λ c h. answer-keeps c.faults f c.tables k h }

module _ {T A : Type 0} (P : T → Type 0) (Q : A → T → Type 0) where
  answer-gives :
      (l : List (Option SqliteError)) (f : T → Result A × T) (t : T) (a : A)
      → ((u : T) (b : A) → P u → (f u).0 ≡ ok b → Q b (f u).1)
      → P t
      → (answer l f t).0 ≡ ok a
      → Q a (answer l f t).1.tables
  unfolding answer
  answer-gives [] f t a k h e = k t a h e
  answer-gives (none ∷ rest) f t a k h e = k t a h e
  answer-gives (some e' ∷ rest) f t a k h e = cc

  pub Gives-statement :
      (f : T → Result A × T)
      → ((u : T) → P u → P (f u).1)
      → ((u : T) (a : A) → P u → (f u).0 ≡ ok a → Q a (f u).1)
      → Gives (λ (c : Connection T). P c.tables) (λ a c. Q a c.tables) (statement f)
  unfolding statement
  Gives-statement f k g = record {
    keeps = λ c h. answer-keeps {P = P} c.faults f c.tables k h;
    gives = λ c a h e. answer-gives c.faults f c.tables a g h e;
  }

module _ {κ} {T A : Type 0} (P : T → Type κ) where
  answer-keeps_at :
      (l : List (Option SqliteError)) (f : T → Result A × T) (t : T)
      → P t
      → P (f t).1
      → P (answer l f t).1.tables
  unfolding answer
  answer-keeps_at [] f t h k = k
  answer-keeps_at (none ∷ rest) f t h k = k
  answer-keeps_at (some e ∷ rest) f t h k = h

  -- From one state.
  pub statement-keeps_at :
      (f : T → Result A × T) (c : Connection T)
      → P c.tables
      → P (f c.tables).1
      → P (statement f c).1.tables
  unfolding statement
  statement-keeps_at f c = answer-keeps_at c.faults f c.tables

quiet_eq : {T : Type 0} (c : Connection T) → c.faults ≡ [] → quiet c.tables ≡ c
quiet_eq c e = λ i. record { tables = c.tables; faults = sym e i }

-- With an engine that refuses nothing, a statement is its function on the tables.
module _ {T A : Type 0} where
  pub statement-quiet :
      (f : T → Result A × T) (c : Connection T)
      → c.faults ≡ []
      → statement f c ≡ ((f c.tables).0, quiet (f c.tables).1)
  unfolding statement run
  statement-quiet f c e = ap (λ (l : List (Option SqliteError)). answer l f c.tables) e

  pub query-quiet :
      (g : T → Result A) (c : Connection T)
      → c.faults ≡ []
      → statement (λ t. (g t, t)) c ≡ (g c.tables, c)
  query-quiet g c e =
      statement-quiet (λ t. (g t, t)) c e
      ∙ ap (λ (d : Connection T). (g c.tables, d)) (quiet_eq c e)

  -- The engine takes the next statement, or refuses it.
  pub statement-answered :
      (f : T → Result A × T) (t : T) (rest : List (Option SqliteError))
      → statement f (record { tables = t; faults = none ∷ rest })
        ≡ ((f t).0, record { tables = (f t).1; faults = rest })
  unfolding statement run
  statement-answered f t rest = refl

  pub statement-refused :
      (f : T → Result A × T) (t : T) (e : SqliteError) (rest : List (Option SqliteError))
      → statement f (record { tables = t; faults = some e ∷ rest })
        ≡ (err (database e), record { tables = t; faults = rest })
  unfolding statement
  statement-refused f t e rest = refl
