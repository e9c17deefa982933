-- ===== src/Exec.antt =====
-- Methods that mutate a store and may fail. What was written before a failure stays written, so the
-- state comes back beside the error too.
pub mod Keeps
pub mod Ends
pub mod Trace
use lotl.Prelude.{◌≡◌, refl, ◌⊎◌, inl, inr, Option, none, some}
use lotl.Errors.{LotlError}

pub data Result {ℓ} (A : Type ℓ) : Type ℓ where
  ok : A → Result A
  err : LotlError → Result A

pub Result-cases {ℓ} :
    {A : Type ℓ} (r : Result A) → ((a : A) × (r ≡ ok a)) ⊎ ((e : LotlError) × (r ≡ err e))
Result-cases (ok a) = inl (a, refl)
Result-cases (err e) = inr (e, refl)

abbrev pub Exec {ℓ} : Type ℓ → Type ℓ → Type ℓ
Exec S A = S → Result A × S

-- `r.map_err(f)`
abbrev mapped_err {ℓ} : {A : Type ℓ} → (LotlError → LotlError) → Result A → Result A
mapped_err f (ok a) = ok a
mapped_err f (err e) = err (f e)

module _ {ℓ} {S A : Type ℓ} where
  pub gets : (S → A) → Exec S A
  gets f store = (ok (f store), store)

  pub lift : Result A → Exec S A
  lift result store = (result, store)

  pub raise : LotlError → Exec S A
  raise e store = (err e, store)

  pub pure : A → Exec S A
  pure a store = (ok a, store)

  -- a call with no `?`, whose result is matched on
  pub caught : Exec S A → Exec S (Result A)
  caught m s = let (r, s') = m s in (ok r, s')

  pub map_err : (LotlError → LotlError) → Exec S A → Exec S A
  map_err f m s = let (r, s') = m s in (mapped_err f r, s')

  -- `o.ok_or_else(|| e)?`
  pub ok_or : LotlError → Option A → Exec S A
  ok_or e none s = (err e, s)
  ok_or e (some a) s = (ok a, s)

-- `r.unwrap_or(d)`
abbrev or_default {ℓ} : {A : Type ℓ} → A → Result A → A
or_default d (ok a) = a
or_default d (err e) = d

module _ {ℓ} {S A : Type ℓ} where
  pub unwrap_or : A → Exec S A → Exec S A
  unwrap_or d m s = let (r, s') = m s in (ok (or_default d r), s')

module _ {ℓ} {S A B : Type ℓ} where
  -- `?` on a result: an error leaves the block.
  abbrev continue : Result A → (A → Exec S B) → Exec S B
  continue (err e) rest store = (err e, store)
  continue (ok a) rest store = rest a store

  infixl 10 ◌>>=◌ ◌>>◌
  -- opening this opens the other actions too
  unfoldable pub ◌>>=◌ : Exec S A → (A → Exec S B) → Exec S B
  unfolding gets lift raise pure ok_or map_err caught unwrap_or
  ◌>>=◌ first rest store = let (result, after) = first store in continue result rest after

  abbrev pub ◌>>◌ : Exec S A → Exec S B → Exec S B
  first >> second = first >>= λ _. second
