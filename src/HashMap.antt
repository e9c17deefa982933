-- ===== src/HashMap.antt =====
-- Rust's `HashMap`, and a table with a primary key: an association list, whose order stands for the
-- unspecified order of iteration (of a scan with no ORDER BY).
pub mod Laws
pub mod Values
pub mod Mirror
use lotl.Prelude.{
  ℕ, Bool, false, true, Option, none, some, List, [], ◌∷◌, Eq, ◌==◌, if◌then◌else◌, ltb, map, ◌||◌,
}

module _ {ℓ} {K V : Type ℓ} ⦃e : Eq K⦄ where
  unfoldable pub lookup : K → List (K × V) → Option V
  lookup key [] = none
  lookup key ((other, value) ∷ rest) = if other == key then some value else lookup key rest

  -- `m.insert(k, v)`, INSERT OR REPLACE
  unfoldable pub insert : K → V → List (K × V) → List (K × V)
  insert key value [] = (key, value) ∷ []
  insert key value ((other, old) ∷ rest) =
      if other == key then (key, value) ∷ rest else (other, old) ∷ insert key value rest

  -- `m.remove(&k)`, DELETE ... WHERE
  unfoldable pub remove : K → List (K × V) → List (K × V)
  remove k [] = []
  remove k ((j, v) ∷ m) = if j == k then remove k m else (j, v) ∷ remove k m

  unfoldable pub contains : K → List (K × V) → Bool
  contains k [] = false
  contains k ((j, v) ∷ m) = j == k || contains k m

module _ {ℓ} {K V : Type ℓ} where
  abbrev pub keys : List (K × V) → List K
  keys [] = []
  keys ((k, v) ∷ m) = k ∷ keys m

abbrev pub larger : ℕ → Option ℕ → Option ℕ
larger k none = some k
larger k (some m) = if ltb m k then some k else some m

module _ {V : Type 0} where
  -- `m.keys().max().copied()`, SELECT MAX(id)
  unfoldable pub max_key : List (ℕ × V) → Option ℕ
  max_key [] = none
  max_key ((k, v) ∷ m) = larger k (max_key m)

  -- the keys of the entries that pass a test, in the order of iteration
  unfoldable pub keys_where : (V → Bool) → List (ℕ × V) → List ℕ
  keys_where p [] = []
  keys_where p ((k, v) ∷ m) = if p v then k ∷ keys_where p m else keys_where p m
