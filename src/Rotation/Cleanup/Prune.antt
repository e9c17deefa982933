-- ===== src/Rotation/Cleanup/Prune.antt =====
-- What the cleanup loop makes of the entries: it drops each listed key while more than one is left.
use lotl.Prelude.{
  number_eq, ℕ, ◌≤◌, ◌≡◌, refl, Bool, true, false, List, [], ◌∷◌, length, ltb, leb, if◌then◌else◌,
  Bool-cases, inl, inr, arith, ◌==◌, ◌||◌, some, ==_iff,
}
use lotl.Prelude.Rows.{Distinct}
use lotl.HashMap.{lookup, remove, contains, keys, keys_where}
use lotl.HashMap.Laws.{
  lookup-remove, contains-remove, length-remove, remove-Distinct, not-contains_of_fresh,
}

abbrev pub mem : ℕ → List ℕ → Bool
mem k [] = false
mem k (x ∷ xs) = x == k || mem k xs

module _ {R : Type 0} where
  unfoldable pub prune : List ℕ → List (ℕ × R) → List (ℕ × R)
  prune [] m = m
  prune (id ∷ ids) m = prune ids (if ltb 1 (length m) then remove id m else m)

  pub prune_small : (ids : List ℕ) (m : List (ℕ × R)) → leb (length m) 1 ≡ true → prune ids m ≡ m
  unfolding prune
  prune_small [] m h = refl
  prune_small (id ∷ ids) m h = ground (arith, prune_small ids m)

  -- A key that is not listed keeps its record.
  pub lookup-prune :
      (ids : List ℕ) (m : List (ℕ × R)) (k : ℕ)
      → mem k ids ≡ false
      → lookup k (prune ids m) ≡ lookup k m
  unfolding prune
  lookup-prune [] m k h = refl
  lookup-prune (id ∷ ids) m k h = elim (Bool-cases (ltb 1 (length m))) [
    | inl e ↦ rw e (ground (arith, lookup-prune ids (remove id m) k, lookup-remove id k m))
    | inr e ↦ rw e (lookup-prune ids m k (ground arith))
  ]

  -- One entry is left if there was one.
  pub prune_nonempty :
      (ids : List ℕ) (m : List (ℕ × R))
      → Distinct (λ (j : ℕ). j) (keys m)
      → 1 ≤ length m
      → 1 ≤ length (prune ids m)
  unfolding prune
  prune_nonempty [] m d h = h
  prune_nonempty (id ∷ ids) m d h = elim (Bool-cases (ltb 1 (length m))) [
    | inl e ↦ rw e (
        prune_nonempty ids (remove id m) (remove-Distinct id m d)
          (ground (arith, length-remove id m d)))
    | inr e ↦ rw e (prune_nonempty ids m d h)
  ]

  length_of_contains : (k : ℕ) (m : List (ℕ × R)) → contains k m ≡ true → 1 ≤ length m
  unfolding contains
  length_of_contains k [] h = absurd (cc)
  length_of_contains k (e ∷ m) h = omega arith

  contains-prune-false :
      (ids : List ℕ) (m : List (ℕ × R)) (k : ℕ)
      → contains k m ≡ false
      → contains k (prune ids m) ≡ false
  unfolding prune
  contains-prune-false [] m k h = h
  contains-prune-false (id ∷ ids) m k h = elim (Bool-cases (ltb 1 (length m))) [
    | inl e ↦
        rw e (contains-prune-false ids (remove id m) k (ground (arith, contains-remove id k m)))
    | inr e ↦ rw e (contains-prune-false ids m k h)
  ]

  -- With a key that is not listed among them, every listed key goes.
  pub contains-prune :
      (ids : List ℕ) (m : List (ℕ × R)) (kept k : ℕ)
      → Distinct (λ (j : ℕ). j) (keys m)
      → contains kept m ≡ true
      → mem kept ids ≡ false
      → mem k ids ≡ true
      → contains k (prune ids m) ≡ false
  unfolding prune
  contains-prune [] m kept k d c nk mk = cc
  contains-prune (id ∷ ids) m kept k d c nk mk = elim (Bool-cases (ltb 1 (length m))) [
    | inl e ↦ rw e (elim (Bool-cases (id == k)) [
      | inl here ↦ contains-prune-false ids (remove id m) k (ground (arith, contains-remove id k m))
      | inr there ↦
          contains-prune ids (remove id m) kept k (remove-Distinct id m d)
            (ground (arith, contains-remove id kept m)) (ground arith) (ground arith)
    ])
    | inr e ↦ rw e (elim (Bool-cases (id == k)) [
      | inl here ↦ contains-prune-false ids m k (
          ground (
            arith,
            length-remove k m d,
            contains-remove k kept m,
            length_of_contains kept (remove k m),
          ))
      | inr there ↦ contains-prune ids m kept k d c (ground arith) (ground arith)
    ])
  ]

  mem-keys_where_fresh :
      (p : R → Bool) (m : List (ℕ × R)) (k : ℕ)
      → contains k m ≡ false
      → mem k (keys_where p m) ≡ false
  unfolding keys_where contains
  mem-keys_where_fresh p [] k h = refl
  mem-keys_where_fresh p ((i, w) ∷ m) k h = ground (arith, mem-keys_where_fresh p m k)

  -- The listed keys are those of the records that pass the test.
  pub mem-keys_where_of_fails :
      (p : R → Bool) (m : List (ℕ × R)) (k : ℕ) (r : R)
      → Distinct (λ (j : ℕ). j) (keys m)
      → lookup k m ≡ some r
      → p r ≡ false
      → mem k (keys_where p m) ≡ false
  unfolding keys_where lookup
  mem-keys_where_of_fails p [] k r d h f = cc
  mem-keys_where_of_fails p ((i, w) ∷ m) k r d h f = elim (Bool-cases (i == k)) [
    | inl e ↦ ground (
      arith,
      mem-keys_where_fresh p m k,
      not-contains_of_fresh k m (rw ((==_iff i k).0 e) at d.0),
    )
    | inr e ↦ ground (arith, mem-keys_where_of_fails p m k r d.1)
  ]

  pub mem-keys_where_of_passes :
      (p : R → Bool) (m : List (ℕ × R)) (k : ℕ) (r : R)
      → lookup k m ≡ some r
      → p r ≡ true
      → mem k (keys_where p m) ≡ true
  unfolding keys_where lookup
  mem-keys_where_of_passes p [] k r h f = cc
  mem-keys_where_of_passes p ((i, w) ∷ m) k r h f = elim (Bool-cases (i == k)) [
    | inl e ↦ ground arith
    | inr e ↦ ground (arith, mem-keys_where_of_passes p m k r)
  ]
