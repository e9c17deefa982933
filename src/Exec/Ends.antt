-- ===== src/Exec/Ends.antt =====
-- Total correctness of an action at a state: it succeeds, and its value and the state after are
-- as said.
use lotl.Prelude.{◌≡◌, refl, Option, none, some}
use lotl.Errors.{LotlError}
use lotl.Exec.{Result, ok, err, Exec, pure, lift, map_err, caught, ok_or, unwrap_or, ◌>>=◌}

pub record Ends {ℓ κ} {S A : Type ℓ} (Q : A → S → Type κ) (o : Result A × S) : Type (ℓ ⊔ κ) where
  pub value : A
  pub succeeds : o.0 ≡ ok value
  pub after : Q value o.1

module _ {ℓ κ} {S A : Type ℓ} {Q : A → S → Type κ} where
  pub Ends-at : (a : A) (s : S) (o : Result A × S) → o ≡ (ok a, s) → Q a s → Ends Q o
  Ends-at a s o e h = rw e (record { value = a; succeeds = refl; after = h })

  pub Ends-pure : (a : A) (s : S) → Q a s → Ends Q (pure a s)
  unfolding ◌>>=◌
  Ends-pure a s h = record { value = a; succeeds = refl; after = h }

  pub Ends-lift : (a : A) (s : S) (r : Result A) → r ≡ ok a → Q a s → Ends Q (lift r s)
  unfolding ◌>>=◌
  Ends-lift a s r e h = rw e (record { value = a; succeeds = refl; after = h })

  pub Ends-map_err :
      (f : LotlError → LotlError) (m : Exec S A) (s : S) → Ends Q (m s) → Ends Q (map_err f m s)
  unfolding ◌>>=◌
  Ends-map_err f m s e =
      rw e.succeeds (record { value = e.value; succeeds = refl; after = e.after })

pub Ends-weaken {ℓ κ ν} :
    {S A : Type ℓ} {Q : A → S → Type κ} {P : A → S → Type ν}
    → ((a : A) (t : S) → Q a t → P a t)
    → (o : Result A × S) → Ends Q o
    → Ends P o
Ends-weaken f o e = record { value = e.value; succeeds = e.succeeds; after = f e.value o.1 e.after }

module _ {ℓ κ ν} {S A B : Type ℓ} {Q : A → S → Type κ} {P : B → S → Type ν} where
  pub Ends-then :
      (m : Exec S A) (k : A → Exec S B) (s : S)
      → Ends Q (m s)
      → ((a : A) (t : S) → Q a t → Ends P (k a t))
      → Ends P ((m >>= k) s)
  unfolding ◌>>=◌
  Ends-then m k s first rest =
      let next : Ends P (k first.value (m s).1) = rest first.value (m s).1 first.after in
      rw first.succeeds
        (record { value = next.value; succeeds = next.succeeds; after = next.after })

-- The outcome of an action under `map_err`, `unwrap_or` and `caught`.
module _ {ℓ} {S A : Type ℓ} where
  pub map_err_ok :
      (f : LotlError → LotlError) (m : Exec S A) (s t : S) (a : A)
      → m s ≡ (ok a, t)
      → map_err f m s ≡ (ok a, t)
  unfolding ◌>>=◌
  map_err_ok f m s t a e = rw e refl

  pub unwrap_or_ok :
      (d : A) (m : Exec S A) (s t : S) (a : A) → m s ≡ (ok a, t) → unwrap_or d m s ≡ (ok a, t)
  unfolding ◌>>=◌
  unwrap_or_ok d m s t a e = rw e refl

  pub caught_result :
      (m : Exec S A) (s t : S) (r : Result A) → m s ≡ (r, t) → caught m s ≡ (ok r, t)
  unfolding ◌>>=◌
  caught_result m s t r e = rw e refl

  pub ok_or-some :
      (e : LotlError) (o : Option A) (s : S) (a : A) → o ≡ some a → ok_or e o s ≡ (ok a, s)
  unfolding ◌>>=◌
  ok_or-some e o s a h = rw h refl

  pub ok_or-none : (e : LotlError) (s : S) → ok_or {A = A} e none s ≡ (err e, s)
  unfolding ◌>>=◌
  ok_or-none e s = refl

  pub lift_ok : (r : Result A) (s : S) (a : A) → r ≡ ok a → lift r s ≡ (ok a, s)
  unfolding ◌>>=◌
  lift_ok r s a e = rw e refl

-- A first action whose outcome is known, and the whole.
module _ {ℓ} {S A B : Type ℓ} where
  pub step_ok :
      (m : Exec S A) (k : A → Exec S B) (s t : S) (a : A) → m s ≡ (ok a, t) → (m >>= k) s ≡ k a t
  unfolding ◌>>=◌
  step_ok m k s t a e = rw e refl

  pub step_err :
      (m : Exec S A) (k : A → Exec S B) (s t : S) (e : LotlError)
      → m s ≡ (err e, t)
      → (m >>= k) s ≡ (err e, t)
  unfolding ◌>>=◌
  step_err m k s t e h = rw h refl

-- A first action whose outcome is known.
module _ {ℓ ν} {S A B : Type ℓ} {P : B → S → Type ν} where
  pub Ends-step :
      (m : Exec S A) (k : A → Exec S B) (s t : S) (a : A)
      → m s ≡ (ok a, t)
      → Ends P (k a t)
      → Ends P ((m >>= k) s)
  unfolding ◌>>=◌
  Ends-step m k s t a e rest = rw e rest

  pub Ends-lift_step :
      (r : Result A) (k : A → Exec S B) (s : S) (a : A)
      → r ≡ ok a
      → Ends P (k a s)
      → Ends P ((lift r >>= k) s)
  unfolding ◌>>=◌
  Ends-lift_step r k s a e rest = rw e rest
