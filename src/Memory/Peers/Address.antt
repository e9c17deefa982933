-- ===== src/Memory/Peers/Address.antt =====
-- `address_key` of src/memory_storage.rs gives every address a text of its own.
use Prim.Native.Char.{code}
use text.Mathlib.TextLemmas.{
  nil-append, cons-append, head-eq_of_cons-eq, tail-eq_of_cons-eq, append_assoc,
}
use lotl.Prelude.{
  string_eq, address_eq, ℕ, String, Bool, true, false, ◌||◌, nat_eq, ◌≡◌, refl, sym, ap, ◌∙◌, arith,
  concat, ◌==◌, Bool-eq_of_iff,
}
use lotl.Memory.Peers.{address_key}

abbrev pub has_colon : String → Bool
has_colon String.[] = false
has_colon (String.◌∷◌ c s) = nat_eq (code c) 58 || has_colon s

-- What `Display` for u32 promises of the text that it writes.
pub record IsDecimal (decimal : ℕ → String) : Type 0 where
  pub injective : (a b : ℕ) → decimal a ≡ decimal b → a ≡ b
  pub no_colon : (n : ℕ) → has_colon (decimal n) ≡ false

colon-append : (t : String) → concat ":" t ≡ String.◌∷◌ ":" t
colon-append t = cons-append ":" String.[] t ∙ ap (String.◌∷◌ ":") (nil-append t)

-- A text with a colon in it.
has_colon-append : (s t : String) → has_colon (concat s (concat ":" t)) ≡ true
has_colon-append String.[] t = rw (nil-append (concat ":" t), colon-append t) refl
has_colon-append (String.◌∷◌ c s) t =
    rw (cons-append c s (concat ":" t)) (ground (arith, has_colon-append s t))

-- The last colon of an address's text ends the name.
split_last :
    (s t u v : String)
    → has_colon u ≡ false
    → has_colon v ≡ false
    → concat s (concat ":" u) ≡ concat t (concat ":" v)
    → (s ≡ t) × (u ≡ v)
split_last String.[] String.[] u v hu hv e = (
  refl,
  tail-eq_of_cons-eq (
      sym (colon-append u)
      ∙ sym (nil-append (concat ":" u))
      ∙ e
      ∙ nil-append (concat ":" v)
      ∙ colon-append v),
)
split_last String.[] (String.◌∷◌ c t) u v hu hv e =
    let rest : u ≡ concat t (concat ":" v) = tail-eq_of_cons-eq (
      sym (colon-append u)
      ∙ sym (nil-append (concat ":" u))
      ∙ e
      ∙ cons-append c t (concat ":" v)) in
    cc (ap has_colon rest, has_colon-append t v)
split_last (String.◌∷◌ c s) String.[] u v hu hv e =
    let rest : concat s (concat ":" u) ≡ v =
      tail-eq_of_cons-eq
        (sym (cons-append c s (concat ":" u)) ∙ e ∙ nil-append (concat ":" v) ∙ colon-append v) in
    cc (ap has_colon rest, has_colon-append s u)
split_last (String.◌∷◌ c s) (String.◌∷◌ d t) u v hu hv e =
    let both : String.◌∷◌ c (concat s (concat ":" u)) ≡ String.◌∷◌ d (concat t (concat ":" v)) =
      sym (cons-append c s (concat ":" u)) ∙ e ∙ cons-append d t (concat ":" v) in
    let rest = split_last s t u v hu hv (tail-eq_of_cons-eq both) in
    (λ i. String.◌∷◌ (head-eq_of_cons-eq both i) (rest.0 i), rest.1)

module _ (decimal : ℕ → String) (laws : IsDecimal decimal) where
  address_key_injective : (a b : String × ℕ) → address_key decimal a ≡ address_key decimal b → a ≡ b
  address_key_injective a b e =
      let both =
        split_last a.0 b.0 (decimal a.1) (decimal b.1) (laws.no_colon a.1) (laws.no_colon b.1)
          (sym (append_assoc a.0 ":" (decimal a.1)) ∙ e ∙ append_assoc b.0 ":" (decimal b.1)) in
      λ i. (both.0 i, laws.injective a.1 b.1 both.1 i)

  -- Two addresses have one text exactly when they are one address.
  pub address_key_apart :
      (a b : String × ℕ) → (address_key decimal a == address_key decimal b) ≡ (a == b)
  address_key_apart a b =
      Bool-eq_of_iff (address_key decimal a == address_key decimal b) (a == b)
        (λ h.
          (address_eq.same_iff a b).1 (address_key_injective a b ((string_eq.same_iff _ _).0 h)))
        (λ h. (string_eq.same_iff _ _).1 (ap (address_key decimal) ((address_eq.same_iff a b).0 h)))
