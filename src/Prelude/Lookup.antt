-- ===== src/Prelude/Lookup.antt =====
-- What a change of a table does to the first row that a query finds.
use lotl.Prelude.{
  refl, sym, ◌≡◌, Bool, true, false, List, [], ◌∷◌, ◌++◌, arith, Bool-cases, All, inl, inr,
  update_where, delete_where, first_where, none, some,
}
use mathlib.Core.Option.{map}

module _ {ℓ} {A : Type ℓ} (p : A → Bool) where
  pub first_where-append :
      (xs ys : List A) → first_where p xs ≡ none → first_where p (xs ++ ys) ≡ first_where p ys
  first_where-append [] ys h = refl
  first_where-append (x ∷ xs) ys h = elim (Bool-cases (p x)) [
    | inl e ↦ ground arith
    | inr e ↦ ground (arith, first_where-append xs ys)
  ]

  pub first_where-last_ne :
      (xs : List A) (x : A) → p x ≡ false → first_where p (xs ++ x ∷ []) ≡ first_where p xs
  first_where-last_ne [] x h = rw h
  first_where-last_ne (y ∷ xs) x h = elim (Bool-cases (p y)) [
    | inl e ↦ rw e
    | inr e ↦ rw e (first_where-last_ne xs x h)
  ]

  -- An UPDATE of the rows that the query asks for.
  pub first_where-update :
      (f : A → A) (xs : List A)
      → ((x : A) → p (f x) ≡ p x)
      → first_where p (update_where p f xs) ≡ map f (first_where p xs)
  first_where-update f [] same = refl
  first_where-update f (x ∷ xs) same = elim (Bool-cases (p x)) [
    | inl e ↦ rw (e, same x, e)
    | inr e ↦ rw (e, e) (first_where-update f xs same)
  ]

  -- An UPDATE or a DELETE of other rows.
  pub first_where-update_ne :
      (q : A → Bool) (f : A → A) (xs : List A)
      → ((x : A) → q x ≡ true → p x ≡ false)
      → ((x : A) → q x ≡ true → p (f x) ≡ false)
      → first_where p (update_where q f xs) ≡ first_where p xs
  first_where-update_ne q f [] k l = refl
  first_where-update_ne q f (x ∷ xs) k l = elim (Bool-cases (q x)) [
    | inl e ↦ rw (e, l x e, k x e) (first_where-update_ne q f xs k l)
    | inr e ↦ elim (Bool-cases (p x)) [
      | inl e' ↦ rw (e, e')
      | inr e' ↦ rw (e, e') (first_where-update_ne q f xs k l)
    ]
  ]

  pub first_where-delete_ne :
      (q : A → Bool) (xs : List A)
      → All (λ x. q x ≡ true → p x ≡ false) xs
      → first_where p (delete_where q xs) ≡ first_where p xs
  first_where-delete_ne q [] k = refl
  first_where-delete_ne q (x ∷ xs) k = elim (Bool-cases (q x)) [
    | inl e ↦ rw (e, k.0 e) (first_where-delete_ne q xs k.1)
    | inr e ↦ elim (Bool-cases (p x)) [
      | inl e' ↦ rw (e, e')
      | inr e' ↦ rw (e, e') (first_where-delete_ne q xs k.1)
    ]
  ]

  pub first_where-delete : (xs : List A) → first_where p (delete_where p xs) ≡ none
  first_where-delete [] = refl
  first_where-delete (x ∷ xs) = elim (Bool-cases (p x)) [
    | inl e ↦ rw e (first_where-delete xs)
    | inr e ↦ rw (e, e) (first_where-delete xs)
  ]

  -- The key of an absent row is the key of no row.
  pub All-not_first : (xs : List A) → first_where p xs ≡ none → All (λ x. p x ≡ false) xs
  All-not_first [] h = tt
  All-not_first (x ∷ xs) h = elim (Bool-cases (p x)) [
    | inl e ↦ ground arith
    | inr e ↦ (e, All-not_first xs (ground arith))
  ]

  pub first_where_of_All : (xs : List A) → All (λ x. p x ≡ false) xs → first_where p xs ≡ none
  first_where_of_All [] h = refl
  first_where_of_All (x ∷ xs) h = rw (h.0) (first_where_of_All xs h.1)

  pub head_is : (y : A) (xs : List A) (x : A) → p y ≡ true → first_where p (y ∷ xs) ≡ some x → y ≡ x
  head_is y xs x e h = cc

  -- What every row has, the row found has.
  pub All_of_first {κ} :
      (P : A → Type κ) (xs : List A) (x : A) → All P xs → first_where p xs ≡ some x → P x
  All_of_first P [] x h e = cc
  All_of_first P (y ∷ xs) x h e = elim (Bool-cases (p y)) [
    | inl e' ↦ rw (sym (head_is y xs x e' e)) (h.0)
    | inr e' ↦ All_of_first P xs x h.1 (ground arith)
  ]
