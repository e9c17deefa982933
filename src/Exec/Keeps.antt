-- ===== src/Exec/Keeps.antt =====
-- Invariants of actions: one rule for each way to build an action.
use lotl.Prelude.{◌≡◌, refl, Bool, true, false, if◌then◌else◌, Option, none, some}
use lotl.Errors.{LotlError}
use lotl.Exec.{Result, ok, err, Exec, pure, raise, lift, gets, caught, map_err, ok_or, ◌>>=◌}

-- `m` keeps `P`, whether it returns or fails.
pub record Keeps {ℓ κ} {S A : Type ℓ} (P : S → Type κ) (m : Exec S A) : Type (ℓ ⊔ κ) where
  pub at : (s : S) → P s → P (m s).1

module _ {ℓ κ} {S A : Type ℓ} {P : S → Type κ} where
  pub Keeps-pure : (a : A) → Keeps P (pure a)
  unfolding ◌>>=◌
  Keeps-pure a = record { at = λ s h. h }

  pub Keeps-raise : (e : LotlError) → Keeps P (raise {A = A} e)
  unfolding ◌>>=◌
  Keeps-raise e = record { at = λ s h. h }

  pub Keeps-lift : (r : Result A) → Keeps P (lift r)
  unfolding ◌>>=◌
  Keeps-lift r = record { at = λ s h. h }

  pub Keeps-gets : (f : S → A) → Keeps P (gets f)
  unfolding ◌>>=◌
  Keeps-gets f = record { at = λ s h. h }

  pub Keeps-caught : (m : Exec S A) → Keeps P m → Keeps P (caught m)
  unfolding ◌>>=◌
  Keeps-caught m k = record { at = λ s h. k.at s h }

  pub Keeps-map_err : (f : LotlError → LotlError) (m : Exec S A) → Keeps P m → Keeps P (map_err f m)
  unfolding ◌>>=◌
  Keeps-map_err f m k = record { at = λ s h. k.at s h }

  pub Keeps-ok_or : (e : LotlError) (o : Option A) → Keeps P (ok_or e o)
  unfolding ◌>>=◌
  Keeps-ok_or e none = record { at = λ s h. h }
  Keeps-ok_or e (some a) = record { at = λ s h. h }

  pub Keeps-if : (b : Bool) (m n : Exec S A) → Keeps P m → Keeps P n → Keeps P (if b then m else n)
  Keeps-if true m n km kn = km
  Keeps-if false m n km kn = kn

module _ {ℓ κ} {S A B : Type ℓ} {P : S → Type κ} (rest : A → Exec S B)
    (each : (a : A) → Keeps P (rest a)) where
  rest-Keeps : (result : Result A) → Keeps P (lift result >>= rest)
  unfolding ◌>>=◌
  rest-Keeps (err e) = Keeps-raise e
  rest-Keeps (ok a) = each a

module _ {ℓ κ} {S A B : Type ℓ} {P : S → Type κ} where
  -- A block keeps what its first step and every continuation keep.
  pub Keeps-bind :
      (first : Exec S A) (rest : A → Exec S B)
      → Keeps P first
      → ((a : A) → Keeps P (rest a))
      → Keeps P (first >>= rest)
  unfolding ◌>>=◌
  Keeps-bind first rest keeps each = record {
    at = λ s h. (rest-Keeps rest each (first s).0).at (first s).1 (keeps.at s h);
  }

pub ruleset keeps_rules = (
  Keeps-bind, Keeps-caught, Keeps-map_err, Keeps-if, Keeps-ok_or, Keeps-gets, Keeps-pure,
  Keeps-lift, Keeps-raise,
)

-- The outcome of an action satisfies `P`, and `Q` where it returns.
abbrev pub GivesAt {ℓ κ} :
    {S B : Type ℓ} → (S → Type κ) → (B → S → Type κ) → Result B × S → Type (ℓ ⊔ κ)
GivesAt {B} P Q o = P o.1 × ((b : B) → o.0 ≡ ok b → Q b o.1)

-- `m` keeps `P`, and what it returns is as `Q` says in the state that it leaves.
pub record Gives {ℓ κ} {S A : Type ℓ} (P : S → Type κ) (Q : A → S → Type κ) (m : Exec S A)
    : Type (ℓ ⊔ κ) where
  pub keeps : (s : S) → P s → P (m s).1
  pub gives : (s : S) (a : A) → P s → (m s).0 ≡ ok a → Q a (m s).1

module _ {ℓ κ} {S A B : Type ℓ} where
  continue-keeps :
      (P : S → Type κ) (r : Result A) (f : A → Exec S B) (s : S)
      → P s
      → ((a : A) → r ≡ ok a → P (f a s).1)
      → P ((lift r >>= f) s).1
  unfolding ◌>>=◌
  continue-keeps P (ok a) f s h k = k a refl
  continue-keeps P (err e) f s h k = h

module _ {ℓ κ} {S A B : Type ℓ} {P : S → Type κ} where
  -- The rest of the block may use what the first step gives.
  pub Keeps-bind_given :
      (Q : A → S → Type κ) (m : Exec S A) (f : A → Exec S B)
      → Gives P Q m
      → ((a : A) (s : S) → P s → Q a s → P (f a s).1)
      → Keeps P (m >>= f)
  unfolding ◌>>=◌
  Keeps-bind_given Q m f g k = record {
    at = λ s h.
        let (r, s') = m s in
        continue-keeps P r f s' (g.keeps s h) (λ a e. k a s' (g.keeps s h) (g.gives s a h e));
  }

module _ {ℓ κ} {S A B : Type ℓ} where
  -- What the last step of a block gives, the block gives.
  continue-gives :
      (P : S → Type κ) (Q : B → S → Type κ) (r : Result A) (f : A → Exec S B) (s : S) (b : B)
      → P s
      → ((a : A) → r ≡ ok a → GivesAt P Q (f a s))
      → ((lift r >>= f) s).0 ≡ ok b
      → Q b ((lift r >>= f) s).1
  unfolding ◌>>=◌
  continue-gives P Q (ok a) f s b h k e = (k a refl).1 b e
  continue-gives P Q (err e') f s b h k e = cc

  pub Gives-bind :
      (P : S → Type κ) (R : A → S → Type κ) (Q : B → S → Type κ) (m : Exec S A) (f : A → Exec S B)
      → Gives P R m
      → ((a : A) (s : S) → P s → R a s → GivesAt P Q (f a s))
      → Gives P Q (m >>= f)
  unfolding ◌>>=◌
  Gives-bind P R Q m f g k = record {
    keeps = λ s h.
        let (r, s') = m s in
        continue-keeps P r f s' (g.keeps s h) (λ a e. (k a s' (g.keeps s h) (g.gives s a h e)).0);
    gives = λ s b h e.
        let (r, s') = m s in
        continue-gives P Q r f s' b (g.keeps s h) (λ a e'. k a s' (g.keeps s h) (g.gives s a h e'))
          e;
  }

module _ {ℓ} {S A : Type ℓ} {P : S → Type ℓ} {Q : A → S → Type ℓ} where
  pub Gives-caught :
      (m : Exec S A)
      → Gives P Q m
      → Gives P (λ (r : Result A) s. (a : A) → r ≡ ok a → Q a s) (caught m)
  unfolding ◌>>=◌
  Gives-caught m g = record { keeps = g.keeps; gives = λ s r h e a e'. g.gives s a h (cc) }

module _ {ℓ κ} {S A B : Type ℓ} (P : S → Type κ) where
  -- From one state.
  pub bind-keeps_at :
      (m : Exec S A) (f : A → Exec S B) (s : S)
      → P (m s).1
      → ((a : A) → Keeps P (f a))
      → P ((m >>= f) s).1
  unfolding ◌>>=◌
  bind-keeps_at m f s h k = let (r, s') = m s in continue-keeps P r f s' h (λ a e. (k a).at s' h)
