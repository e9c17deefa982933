-- ===== src/HashMap/Values.antt =====
-- A map whose values are rewritten, key by key.
use lotl.Prelude.{
  number_eq, ℕ, suc, ◌≡◌, refl, ap, Option, none, some, List, [], ◌∷◌, length, ◌==◌, Bool-cases,
  inl, inr, ==_iff,
}
use lotl.HashMap.{lookup, insert, remove, max_key}

abbrev pub value_at {ℓ} : {V W : Type ℓ} → (V → W) → Option V → Option W
value_at f none = none
value_at f (some v) = some (f v)

module _ {V W : Type 0} (f : ℕ → V → W) where
  unfoldable pub map_values : List (ℕ × V) → List (ℕ × W)
  map_values [] = []
  map_values ((id, v) ∷ m) = (id, f id v) ∷ map_values m

  pub insert-map_values :
      (id : ℕ) (v : V) (m : List (ℕ × V))
      → insert id (f id v) (map_values m) ≡ map_values (insert id v m)
  unfolding map_values insert
  insert-map_values id v [] = refl
  insert-map_values id v ((j, w) ∷ m) = elim (Bool-cases (j == id)) [
    | inl e ↦ rw e
    | inr e ↦ rw (e, insert-map_values id v m)
  ]

  pub remove-map_values :
      (id : ℕ) (m : List (ℕ × V)) → remove id (map_values m) ≡ map_values (remove id m)
  unfolding map_values remove
  remove-map_values id [] = refl
  remove-map_values id ((j, w) ∷ m) = elim (Bool-cases (j == id)) [
    | inl e ↦ rw (e, remove-map_values id m)
    | inr e ↦ rw (e, remove-map_values id m)
  ]

  pub lookup-map_values :
      (id : ℕ) (m : List (ℕ × V)) → lookup id (map_values m) ≡ value_at (f id) (lookup id m)
  unfolding map_values lookup
  lookup-map_values id [] = refl
  lookup-map_values id ((j, w) ∷ m) = elim (Bool-cases (j == id)) [
    | inl e ↦ rw (e, (==_iff j id).0 e)
    | inr e ↦ rw (e, lookup-map_values id m)
  ]

  pub length-map_values : (m : List (ℕ × V)) → length (map_values m) ≡ length m
  unfolding map_values
  length-map_values [] = refl
  length-map_values ((j, w) ∷ m) = ap suc (length-map_values m)

  pub max_key-map_values : (m : List (ℕ × V)) → max_key (map_values m) ≡ max_key m
  unfolding map_values max_key
  max_key-map_values [] = refl
  max_key-map_values ((j, w) ∷ m) = rw (max_key-map_values m)
