-- ===== src/HashMap/Laws.antt =====
-- The laws of `HashMap`.
use lotl.Prelude.{
  number_eq, ℕ, suc, ◌≤◌, ◌<◌, ◌≡◌, ◌≢◌, refl, false, true, Option, none, some, List, [], ◌∷◌, ◌++◌,
  Eq, ◌==◌, if◌then◌else◌, ==_iff, ltb, Option-cases, arith, length, All, Bool-cases, inl, inr,
  ◌||◌,
}
use lotl.Prelude.Rows.{Distinct}
use lotl.HashMap.{lookup, insert, remove, contains, keys, larger, max_key}

module _ {ℓ} {K V : Type ℓ} ⦃e : Eq K⦄ where
  pub lookup-insert :
      (key probe : K) (value : V) (m : List (K × V))
      → lookup probe (insert key value m) ≡ (if key == probe then some value else lookup probe m)
  unfolding insert lookup
  lookup-insert key probe value [] = refl
  lookup-insert key probe value ((i, old) ∷ m) = ground (
    arith,
    e.same_iff i key,
    e.same_iff i probe,
    e.same_iff key probe,
    lookup-insert key probe value m,
  )

  pub lookup-insert_self : (k : K) (v : V) (m : List (K × V)) → lookup k (insert k v m) ≡ some v
  lookup-insert_self k v m = rw (lookup-insert k k v m, (e.same_iff k k).1 refl)

  pub lookup-insert_ne :
      (k j : K) (v : V) (m : List (K × V)) → k ≢ j → lookup j (insert k v m) ≡ lookup j m
  lookup-insert_ne k j v m ne = elim (Bool-cases (k == j)) [
    | inl h ↦ absurd (ne ((e.same_iff k j).0 h))
    | inr h ↦ rw (lookup-insert k j v m, h)
  ]

  pub lookup-remove :
      (k j : K) (m : List (K × V)) → lookup j (remove k m) ≡ (if k == j then none else lookup j m)
  unfolding lookup remove
  lookup-remove k j [] = ground arith
  lookup-remove k j ((i, w) ∷ m) =
      ground (arith, e.same_iff k j, e.same_iff i k, e.same_iff i j, lookup-remove k j m)

  pub contains-insert :
      (k j : K) (v : V) (m : List (K × V)) → contains j (insert k v m) ≡ (k == j || contains j m)
  unfolding contains insert
  contains-insert k j v [] = refl
  contains-insert k j v ((i, w) ∷ m) =
      ground (arith, e.same_iff k j, e.same_iff i k, e.same_iff i j, contains-insert k j v m)

  pub contains-remove :
      (k j : K) (m : List (K × V))
      → contains j (remove k m) ≡ (if k == j then false else contains j m)
  unfolding contains remove
  contains-remove k j [] = ground arith
  contains-remove k j ((i, w) ∷ m) =
      ground (arith, e.same_iff k j, e.same_iff i k, e.same_iff i j, contains-remove k j m)

  pub lookup_of_contains :
      (k : K) (m : List (K × V)) → contains k m ≡ true → (v : V) × (lookup k m ≡ some v)
  unfolding contains lookup
  lookup_of_contains k [] h = absurd (cc)
  lookup_of_contains k ((i, w) ∷ m) h = elim (Bool-cases (i == k)) [
    | inl eq ↦ (w, rw eq)
    | inr ne ↦ rw ne (lookup_of_contains k m (ground arith))
  ]

  pub contains_of_lookup :
      (k : K) (v : V) (m : List (K × V)) → lookup k m ≡ some v → contains k m ≡ true
  unfolding contains lookup
  contains_of_lookup k v [] h = cc
  contains_of_lookup k v ((i, w) ∷ m) h = ground (arith, contains_of_lookup k v m)

  pub length-insert :
      (k : K) (v : V) (m : List (K × V))
      → length (insert k v m) ≡ (if contains k m then length m else suc (length m))
  unfolding contains insert
  length-insert k v [] = refl
  length-insert k v ((i, w) ∷ m) = ground (arith, length-insert k v m)

  pub remove_absent : (k : K) (m : List (K × V)) → contains k m ≡ false → remove k m ≡ m
  unfolding contains remove
  remove_absent k [] h = refl
  remove_absent k ((i, w) ∷ m) h = ground (arith, remove_absent k m)

  pub not-contains_of_fresh :
      (k : K) (m : List (K × V)) → All (λ j. k ≢ j) (keys m) → contains k m ≡ false
  unfolding contains
  not-contains_of_fresh k [] h = refl
  not-contains_of_fresh k ((i, w) ∷ m) h =
      ground (arith, e.same_iff i k, h.0, not-contains_of_fresh k m h.1)

  -- Keys are distinct, so a removal drops one entry at most.
  pub length-remove :
      (k : K) (m : List (K × V))
      → Distinct (λ (j : K). j) (keys m)
      → length m ≡ (if contains k m then suc (length (remove k m)) else length (remove k m))
  unfolding contains remove
  length-remove k [] d = refl
  length-remove k ((i, w) ∷ m) d = elim (Bool-cases (i == k)) [
    | inl eq ↦ ground (arith, remove_absent k m, not-contains_of_fresh i m d.0, e.same_iff i k)
    | inr ne ↦ ground (arith, length-remove k m d.1)
  ]

  fresh-insert :
      (i k : K) (v : V) (m : List (K × V))
      → i ≢ k
      → All (λ j. i ≢ j) (keys m)
      → All (λ j. i ≢ j) (keys (insert k v m))
  unfolding insert
  fresh-insert i k v [] ne h = (ne, tt)
  fresh-insert i k v ((j, w) ∷ m) ne h = elim (Bool-cases (j == k)) [
    | inl eq ↦ rw eq (ne, h.1)
    | inr ne' ↦ rw ne' (h.0, fresh-insert i k v m ne h.1)
  ]

  fresh-remove :
      (i k : K) (m : List (K × V))
      → All (λ j. i ≢ j) (keys m)
      → All (λ j. i ≢ j) (keys (remove k m))
  unfolding remove
  fresh-remove i k [] h = tt
  fresh-remove i k ((j, w) ∷ m) h = elim (Bool-cases (j == k)) [
    | inl eq ↦ rw eq (fresh-remove i k m h.1)
    | inr ne ↦ rw ne (h.0, fresh-remove i k m h.1)
  ]

  pub insert-Distinct :
      (k : K) (v : V) (m : List (K × V))
      → Distinct (λ (j : K). j) (keys m)
      → Distinct (λ (j : K). j) (keys (insert k v m))
  unfolding insert
  insert-Distinct k v [] d = (tt, tt)
  insert-Distinct k v ((i, w) ∷ m) d = elim (Bool-cases (i == k)) [
    | inl eq ↦ rw eq (rw ((e.same_iff i k).0 eq) at d.0, d.1)
    | inr ne ↦
        rw ne (
          fresh-insert i k v m (λ p. ground (arith, e.same_iff i k)) d.0,
          insert-Distinct k v m d.1,
        )
  ]

  pub remove-Distinct :
      (k : K) (m : List (K × V))
      → Distinct (λ (j : K). j) (keys m)
      → Distinct (λ (j : K). j) (keys (remove k m))
  unfolding remove
  remove-Distinct k [] d = tt
  remove-Distinct k ((i, w) ∷ m) d = elim (Bool-cases (i == k)) [
    | inl eq ↦ rw eq (remove-Distinct k m d.1)
    | inr ne ↦ rw ne (fresh-remove i k m d.0, remove-Distinct k m d.1)
  ]

  -- A new key goes to the end.
  pub insert_new :
      (k : K) (v : V) (m : List (K × V)) → contains k m ≡ false → insert k v m ≡ m ++ (k, v) ∷ []
  unfolding contains insert
  insert_new k v [] h = refl
  insert_new k v ((i, w) ∷ m) h = ground (arith, insert_new k v m)

abbrev Bounds : Option ℕ → ℕ → Type 0
Bounds none k = ⊥
Bounds (some b) k = k ≤ b

Bounds-larger : (o : Option ℕ) (i k : ℕ) → Bounds o k → Bounds (larger i o) k
Bounds-larger none i k h = absurd h
Bounds-larger (some b) i k h = elim (Bool-cases (ltb b i)) [
  | inl lt ↦ rw lt (ground arith)
  | inr ge ↦ rw ge h
]

Bounds-larger_self : (o : Option ℕ) (i : ℕ) → Bounds (larger i o) i
Bounds-larger_self none i = omega arith
Bounds-larger_self (some b) i = elim (Bool-cases (ltb b i)) [
  | inl lt ↦ rw lt (omega arith)
  | inr ge ↦ rw ge (ground arith)
]

module _ {V : Type 0} where
  max-Bounds : (k : ℕ) (m : List (ℕ × V)) → contains k m ≡ true → Bounds (max_key m) k
  unfolding contains max_key
  max-Bounds k [] h = absurd (cc)
  max-Bounds k ((i, w) ∷ m) h = elim (Bool-cases (i == k)) [
    | inl eq ↦ rw (← (==_iff i k).0 eq) (Bounds-larger_self (max_key m) i)
    | inr ne ↦ Bounds-larger (max_key m) i k (max-Bounds k m (ground arith))
  ]

  -- `max_key` bounds every key.
  pub contains-le-max :
      (k : ℕ) (m : List (ℕ × V)) (b : ℕ) → contains k m ≡ true → max_key m ≡ some b → k ≤ b
  contains-le-max k m b h e = rw e at (max-Bounds k m h)

  pub contains-max_none : (k : ℕ) (m : List (ℕ × V)) → max_key m ≡ none → contains k m ≡ false
  contains-max_none k m e = elim (Bool-cases (contains k m)) [
    | inl h ↦ absurd (rw e at (max-Bounds k m h))
    | inr h ↦ h
  ]

  -- It is a key itself.
  pub contains-max : (m : List (ℕ × V)) (b : ℕ) → max_key m ≡ some b → contains b m ≡ true
  unfolding contains max_key
  contains-max [] b e = cc
  contains-max ((i, w) ∷ m) b e = elim (Option-cases (max_key m)) [
    | inl none' ↦ ground arith
    | inr (c, some') ↦ ground (arith, contains-max m c)
  ]

  pub max_key-none : (m : List (ℕ × V)) → max_key m ≡ none → m ≡ []
  unfolding max_key
  max_key-none [] e = refl
  max_key-none ((i, w) ∷ m) e = elim (Option-cases (max_key m)) [
    | inl none' ↦ ground arith
    | inr (c, some') ↦ ground arith
  ]

  -- A key above all others becomes the greatest.
  pub max_key-append :
      (m : List (ℕ × V)) (k : ℕ) (v : V)
      → ((j : ℕ) → contains j m ≡ true → j < k)
      → max_key (m ++ (k, v) ∷ []) ≡ some k
  unfolding max_key contains
  max_key-append [] k v h = refl
  max_key-append ((i, w) ∷ m) k v h =
      rw (max_key-append m k v (λ j hj. h j (ground arith))) (ground (arith, h i))
