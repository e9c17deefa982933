-- ===== src/HashMap/Mirror.antt =====
-- Two association lists that hold the same entries in two representations: the keys of the second are
-- the images of those of the first, and a relation holds between the values.
use lotl.Prelude.{
  ℕ, ◌≡◌, refl, ap, Option, none, some, List, [], ◌∷◌, Eq, ◌==◌, length, Bool-cases, inl, inr, suc,
}
use lotl.HashMap.{lookup, insert, remove}

module _ {K L V W : Type 0} (key : K → L) (Same : V → W → Type 0) where
  abbrev pub Mirror : List (K × V) → List (L × W) → Type 0
  Mirror [] [] = Unit
  Mirror [] (y ∷ ys) = ⊥
  Mirror (x ∷ xs) [] = ⊥
  Mirror ((k, v) ∷ xs) ((l, w) ∷ ys) = (key k ≡ l) × Same v w × Mirror xs ys

  -- what the two look-ups may find
  abbrev pub SameOption : Option V → Option W → Type 0
  SameOption none none = Unit
  SameOption none (some w) = ⊥
  SameOption (some v) none = ⊥
  SameOption (some v) (some w) = Same v w

  pub length-Mirror : (m : List (K × V)) (n : List (L × W)) → Mirror m n → length m ≡ length n
  length-Mirror [] [] h = refl
  length-Mirror (x ∷ xs) [] h = absurd h
  length-Mirror [] (y ∷ ys) h = absurd h
  length-Mirror ((k, v) ∷ xs) ((l, w) ∷ ys) h = ap (λ (t : ℕ). suc t) (length-Mirror xs ys h.2)

module _ {K L V W : Type 0} ⦃ek : Eq K⦄ ⦃el : Eq L⦄ (key : K → L) (Same : V → W → Type 0)
    (apart : (a b : K) → (key a == key b) ≡ (a == b)) where
  pub lookup-Mirror :
      (k : K) (m : List (K × V)) (n : List (L × W))
      → Mirror key Same m n
      → SameOption key Same (lookup k m) (lookup (key k) n)
  unfolding lookup
  lookup-Mirror k [] [] h = tt
  lookup-Mirror k (x ∷ xs) [] h = absurd h
  lookup-Mirror k [] (y ∷ ys) h = absurd h
  lookup-Mirror k ((j, v) ∷ xs) ((l, w) ∷ ys) h = elim (Bool-cases (j == k)) [
    | inl e ↦ rw⁻¹ h.0 (rw (apart j k, e) h.1)
    | inr e ↦ rw⁻¹ h.0 (rw (apart j k, e) (lookup-Mirror k xs ys h.2))
  ]

  pub insert-Mirror :
      (k : K) (v : V) (w : W) (m : List (K × V)) (n : List (L × W))
      → Same v w
      → Mirror key Same m n
      → Mirror key Same (insert k v m) (insert (key k) w n)
  unfolding insert
  insert-Mirror k v w [] [] s h = (refl, s, tt)
  insert-Mirror k v w (x ∷ xs) [] s h = absurd h
  insert-Mirror k v w [] (y ∷ ys) s h = absurd h
  insert-Mirror k v w ((j, v') ∷ xs) ((l, w') ∷ ys) s h = elim (Bool-cases (j == k)) [
    | inl e ↦ rw⁻¹ h.0 (rw (apart j k, e) (refl, s, h.2))
    | inr e ↦ rw⁻¹ h.0 (rw (apart j k, e) (refl, h.1, insert-Mirror k v w xs ys s h.2))
  ]

  pub remove-Mirror :
      (k : K) (m : List (K × V)) (n : List (L × W))
      → Mirror key Same m n
      → Mirror key Same (remove k m) (remove (key k) n)
  unfolding remove
  remove-Mirror k [] [] h = tt
  remove-Mirror k (x ∷ xs) [] h = absurd h
  remove-Mirror k [] (y ∷ ys) h = absurd h
  remove-Mirror k ((j, v) ∷ xs) ((l, w) ∷ ys) h = elim (Bool-cases (j == k)) [
    | inl e ↦ rw⁻¹ h.0 (rw (apart j k, e) (remove-Mirror k xs ys h.2))
    | inr e ↦ rw⁻¹ h.0 (rw (apart j k, e) (refl, h.1, remove-Mirror k xs ys h.2))
  ]
