-- ===== src/Prelude/Rows.antt =====
-- What the statements on a table do to properties of its rows.
use lotl.Prelude.{
  ◌≡◌, ◌≢◌, refl, Bool, true, false, List, [], ◌∷◌, ◌++◌, arith, Bool-cases, All, inl, inr,
  any_where, update_where, delete_where, first_where, some,
}

-- No two rows have one key.
abbrev pub Distinct {ℓ κ} : {A : Type ℓ} {K : Type κ} → (A → K) → List A → Type (ℓ ⊔ κ)
Distinct key [] = Unit
Distinct key (x ∷ xs) = All (λ y. key x ≢ key y) xs × Distinct key xs

module _ {ℓ κ} {A : Type ℓ} (P : A → Type κ) where
  pub All-append_one : (xs : List A) (x : A) → All P xs → P x → All P (xs ++ x ∷ [])
  All-append_one [] x h p = (p, tt)
  All-append_one (y ∷ xs) x h p = (h.0, All-append_one xs x h.1 p)

  pub All-update :
      (q : A → Bool) (f : A → A) (xs : List A)
      → ((x : A) → P x → P (f x))
      → All P xs
      → All P (update_where q f xs)
  All-update q f [] k h = tt
  All-update q f (x ∷ xs) k h = elim (Bool-cases (q x)) [
    | inl e ↦ rw e (k x h.0, All-update q f xs k h.1)
    | inr e ↦ rw e (h.0, All-update q f xs k h.1)
  ]

  pub All-delete : (q : A → Bool) (xs : List A) → All P xs → All P (delete_where q xs)
  All-delete q [] h = tt
  All-delete q (x ∷ xs) h = elim (Bool-cases (q x)) [
    | inl e ↦ rw e (All-delete q xs h.1)
    | inr e ↦ rw e (h.0, All-delete q xs h.1)
  ]

module _ {ℓ κ λ'} {A : Type ℓ} (P : A → Type κ) (Q : A → Type λ') where
  pub All-mono : (xs : List A) → ((x : A) → P x → Q x) → All P xs → All Q xs
  All-mono [] k h = tt
  All-mono (x ∷ xs) k h = (k x h.0, All-mono xs k h.1)

  -- A property that each deleted row lacks and each kept row gains.
  pub All-delete_gain :
      (q : A → Bool) (xs : List A)
      → ((x : A) → q x ≡ false → P x → Q x)
      → All P xs
      → All Q (delete_where q xs)
  All-delete_gain q [] k h = tt
  All-delete_gain q (x ∷ xs) k h = elim (Bool-cases (q x)) [
    | inl e ↦ rw e (All-delete_gain q xs k h.1)
    | inr e ↦ rw e (k x e h.0, All-delete_gain q xs k h.1)
  ]

module _ {ℓ} {A : Type ℓ} where
  pub All-deleted : (q : A → Bool) (xs : List A) → All (λ x. q x ≡ false) (delete_where q xs)
  All-deleted q [] = tt
  All-deleted q (x ∷ xs) = elim (Bool-cases (q x)) [
    | inl e ↦ rw e (All-deleted q xs)
    | inr e ↦ rw e (e, All-deleted q xs)
  ]

  pub any_where-append_one :
      (p : A → Bool) (xs : List A) (x : A)
      → any_where p xs ≡ true
      → any_where p (xs ++ x ∷ []) ≡ true
  any_where-append_one p [] x h = cc
  any_where-append_one p (y ∷ xs) x h = ground (arith, any_where-append_one p xs x)

  pub any_where-last :
      (p : A → Bool) (xs : List A) (x : A) → p x ≡ true → any_where p (xs ++ x ∷ []) ≡ true
  any_where-last p [] x h = ground arith
  any_where-last p (y ∷ xs) x h = ground (arith, any_where-last p xs x)

  pub any_where-update :
      (p q : A → Bool) (f : A → A) (xs : List A)
      → ((x : A) → p (f x) ≡ p x)
      → any_where p (update_where q f xs) ≡ any_where p xs
  any_where-update p q f [] h = refl
  any_where-update p q f (x ∷ xs) h = ground (arith, h x, any_where-update p q f xs h)

  -- A row that the deletion spares is still there.
  pub any_where-delete :
      (p q : A → Bool) (xs : List A)
      → ((x : A) → p x ≡ true → q x ≡ false)
      → any_where p xs ≡ true
      → any_where p (delete_where q xs) ≡ true
  any_where-delete p q [] h e = e
  any_where-delete p q (x ∷ xs) h e = ground (arith, h x, any_where-delete p q xs h)

  pub any_where_of_first :
      (p : A → Bool) (xs : List A) (x : A) → first_where p xs ≡ some x → any_where p xs ≡ true
  any_where_of_first p [] x h = cc
  any_where_of_first p (y ∷ xs) x h = ground (arith, any_where_of_first p xs x)

  pub first_where_holds :
      (p : A → Bool) (xs : List A) (x : A) → first_where p xs ≡ some x → p x ≡ true
  first_where_holds p [] x h = cc
  first_where_holds p (y ∷ xs) x h = ground (arith, first_where_holds p xs x)

  pub All-of_none :
      (p : A → Bool) (xs : List A) → any_where p xs ≡ false → All (λ x. p x ≡ false) xs
  All-of_none p [] h = tt
  All-of_none p (x ∷ xs) h = (ground arith, All-of_none p xs (ground arith))

module _ {ℓ κ} {A : Type ℓ} {K : Type κ} (key : A → K) where
  pub Distinct-append_one :
      (xs : List A) (x : A)
      → All (λ y. key y ≢ key x) xs
      → Distinct key xs
      → Distinct key (xs ++ x ∷ [])
  Distinct-append_one [] x h d = (tt, tt)
  Distinct-append_one (y ∷ xs) x h d =
      (All-append_one (λ z. key y ≢ key z) xs x d.0 h.0, Distinct-append_one xs x h.1 d.1)

  All-update_key :
      (k : K) (q : A → Bool) (f : A → A) (xs : List A)
      → ((x : A) → key (f x) ≡ key x)
      → All (λ y. k ≢ key y) xs
      → All (λ y. k ≢ key y) (update_where q f xs)
  All-update_key k q f xs same = All-update (λ y. k ≢ key y) q f xs (λ x h. rw (same x) h)

  pub Distinct-update :
      (q : A → Bool) (f : A → A) (xs : List A)
      → ((x : A) → key (f x) ≡ key x)
      → Distinct key xs
      → Distinct key (update_where q f xs)
  Distinct-update q f [] same d = tt
  Distinct-update q f (x ∷ xs) same d = elim (Bool-cases (q x)) [
    | inl e ↦
        rw e (rw (same x) (All-update_key (key x) q f xs same d.0), Distinct-update q f xs same d.1)
    | inr e ↦ rw e (All-update_key (key x) q f xs same d.0, Distinct-update q f xs same d.1)
  ]

  pub Distinct-delete :
      (q : A → Bool) (xs : List A) → Distinct key xs → Distinct key (delete_where q xs)
  Distinct-delete q [] d = tt
  Distinct-delete q (x ∷ xs) d = elim (Bool-cases (q x)) [
    | inl e ↦ rw e (Distinct-delete q xs d.1)
    | inr e ↦ rw e (All-delete (λ y. key x ≢ key y) q xs d.0, Distinct-delete q xs d.1)
  ]
