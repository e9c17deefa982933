-- ===== src/History/Inbox/Shown.antt =====
-- What SELECT shows of a table after an INSERT, an UPDATE or a DELETE.
use lotl.Prelude.{
  string_eq, number_eq, ◌≡◌, refl, Bool, true, false, ◌&&◌, List, [], ◌∷◌, ◌++◌, map, arith,
  if◌then◌else◌, first_where, where_rows, update_where, delete_where, count_where, All, Bool-cases,
  inl, inr,
}

module _ {ℓ} {A : Type ℓ} (p : A → Bool) where
  pub where_rows-append_one :
      (xs : List A) (x : A)
      → where_rows p (xs ++ x ∷ []) ≡ (if p x then where_rows p xs ++ x ∷ [] else where_rows p xs)
  where_rows-append_one [] x = refl
  where_rows-append_one (y ∷ xs) x = elim (Bool-cases (p y)) [
    | inl e ↦ elim (Bool-cases (p x)) [
      | inl k ↦ rw (e, where_rows-append_one xs x, k) refl
      | inr k ↦ rw (e, where_rows-append_one xs x, k) refl
    ]
    | inr e ↦ rw (e, where_rows-append_one xs x) refl
  ]

  pub where_rows_none : (xs : List A) → All (λ x. p x ≡ false) xs → where_rows p xs ≡ []
  where_rows_none [] h = refl
  where_rows_none (x ∷ xs) h = rw (h.0) (where_rows_none xs h.1)

  -- An UPDATE of other rows.
  pub first-update_apart :
      (q : A → Bool) (f : A → A) (xs : List A)
      → ((x : A) → p (f x) ≡ p x)
      → All (λ x. q x ≡ true → p x ≡ false) xs
      → first_where p (update_where q f xs) ≡ first_where p xs
  first-update_apart q f [] same k = refl
  first-update_apart q f (x ∷ xs) same k = elim (Bool-cases (q x)) [
    | inl e ↦ rw (e, same x, k.0 e) (first-update_apart q f xs same k.1)
    | inr e ↦ elim (Bool-cases (p x)) [
      | inl e' ↦ rw (e, e')
      | inr e' ↦ rw (e, e') (first-update_apart q f xs same k.1)
    ]
  ]

module _ {ℓ κ} {A : Type ℓ} {B : Type κ} (g : A → B) (p : A → Bool) where
  pub shown-append_one :
      (xs : List A) (x : A)
      → p x ≡ true
      → map g (where_rows p (xs ++ x ∷ [])) ≡ map g (where_rows p xs) ++ g x ∷ []
  shown-append_one [] x e = rw e refl
  shown-append_one (y ∷ xs) x e = elim (Bool-cases (p y)) [
    | inl k ↦ rw (k, shown-append_one xs x e) refl
    | inr k ↦ rw (k, shown-append_one xs x e) refl
  ]

-- An UPDATE or a DELETE of messages, as the entries of a conversation show it.
module _ {ℓ κ} {A : Type ℓ} {B : Type κ} (g : A → B) (p q : A → Bool) (r : B → Bool)
    (reads : (x : A) → r (g x) ≡ q x) where
  pub shown-update :
      (f : A → A) (h : B → B) (xs : List A)
      → ((x : A) → p (f x) ≡ p x)
      → ((x : A) → g (f x) ≡ h (g x))
      → map g (where_rows p (update_where q f xs)) ≡ update_where r h (map g (where_rows p xs))
  shown-update f h [] same shows = refl
  shown-update f h (x ∷ xs) same shows = elim (Bool-cases (p x)) [
    | inl e ↦ elim (Bool-cases (q x)) [
      | inl k ↦ rw (k, same x, e, shown-update f h xs same shows, reads x, k, shows x) refl
      | inr k ↦ rw (k, e, shown-update f h xs same shows, reads x, k) refl
    ]
    | inr e ↦ elim (Bool-cases (q x)) [
      | inl k ↦ rw (k, same x, e) (shown-update f h xs same shows)
      | inr k ↦ rw (k, e) (shown-update f h xs same shows)
    ]
  ]

  pub shown-delete :
      (xs : List A)
      → map g (where_rows p (delete_where q xs)) ≡ delete_where r (map g (where_rows p xs))
  shown-delete [] = refl
  shown-delete (x ∷ xs) = elim (Bool-cases (p x)) [
    | inl e ↦ elim (Bool-cases (q x)) [
      | inl k ↦ rw (k, e, shown-delete xs, reads x, k) refl
      | inr k ↦ rw (k, e, shown-delete xs, reads x, k) refl
    ]
    | inr e ↦ elim (Bool-cases (q x)) [
      | inl k ↦ rw (k, e) (shown-delete xs)
      | inr k ↦ rw (k, e) (shown-delete xs)
    ]
  ]

  pub shown-count :
      (u : A → Bool) (xs : List A)
      → ((x : A) → u x ≡ (p x && q x))
      → count_where u xs ≡ count_where r (map g (where_rows p xs))
  shown-count u [] both = refl
  shown-count u (x ∷ xs) both = elim (Bool-cases (p x)) [
    | inl e ↦ rw (both x, e, reads x, shown-count u xs both) refl
    | inr e ↦ rw (both x, e) (omega (arith, shown-count u xs both))
  ]
