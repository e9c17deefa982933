-- ===== src/Exec/Trace.antt =====
-- What a caller sees of a sequence of calls, and when it sees the same of two implementations.
use lotl.Prelude.{◌≡◌, refl, List, [], ◌∷◌}
use lotl.Exec.{Result, Exec}

module _ {Call Answer S : Type 0} where
  -- The answers to the calls, one after another, from a state; an error ends no sequence.
  unfoldable pub trace : (Call → Exec S Answer) → S → List Call → List (Result Answer)
  trace on s [] = []
  trace on s (call ∷ rest) = let (answer, after) = on call s in answer ∷ trace on after rest

module _ {Call Answer S T : Type 0} (on : Call → Exec S Answer) (on' : Call → Exec T Answer)
    (Match : S → T → Type 0) where
  -- Each call gets one answer from matching states, and leaves matching states.
  abbrev pub Simulates : Type 0
  Simulates =
      (call : Call) (s : S) (t : T)
      → Match s t
      → ((on call s).0 ≡ (on' call t).0) × Match (on call s).1 (on' call t).1

  pub trace-Simulates :
      Simulates
      → (calls : List Call) (s : S) (t : T) → Match s t
      → trace on s calls ≡ trace on' t calls
  unfolding trace
  trace-Simulates step [] s t m = refl
  trace-Simulates step (call ∷ rest) s t m =
      let (same, after) = step call s t m in
      λ i. same i ∷ trace-Simulates step rest (on call s).1 (on' call t).1 after i
