-- ===== src/Maintenance/Due.antt =====
-- One rotating store through a maintenance: the age test, the rotation that it asks for, the cleanup.
use lotl.Prelude.{
  number_eq, ℕ, suc, ◌≤◌, ◌≡◌, refl, ap, Bool, true, false, some, List, [], ◌∷◌, ◌++◌, arith,
  length, ltb, ◌/◌, Option-cases, inl, inr,
}
use lotl.Prelude.Rows.{Distinct}
use lotl.Errors.{LotlError}
use lotl.Exec.{Result, ok, Exec, lift, map_err, ◌>>=◌}
use lotl.Exec.Ends.{Ends, Ends-pure, Ends-map_err, Ends-then, Ends-lift_step}
use lotl.HashMap.{lookup, keys, max_key}
use lotl.HashMap.Laws.{lookup_of_contains, contains-max}
use lotl.StorageTrait.{RotatingStore}
use lotl.StorageTrait.Laws.{RotatingLaws}
use lotl.Rotation.Words.{sub_u64}
use lotl.Rotation.Stores.{needs_rotation, age_check, cleanup_expired, rotation_interval_secs}
use lotl.Rotation.Rotate.{Rotated}
use lotl.Rotation.Cleanup.{cleanup-Becomes, cleanup_keeps_one}
use lotl.Maintenance.{rotated_if, as_storage_error}

-- The store has a key at least, and nothing else has changed.
pub record Held {S R O : Type 0} (IsReady : S → Type 0) (entries : S → List (ℕ × R))
    (others : S → O) (s t : S) : Type 0 where
  pub ready : IsReady t
  pub distinct : Distinct (λ (j : ℕ). j) (keys (entries t))
  pub nonempty : 1 ≤ length (entries t)
  pub frame : others t ≡ others s

length-append_one : {A : Type 0} (l : List A) (a : A) → length (l ++ a ∷ []) ≡ suc (length l)
length-append_one [] a = refl
length-append_one (x ∷ l) a = ap suc (length-append_one l a)

nonempty_of_max : {R : Type 0} (m : List (ℕ × R)) (k : ℕ) → max_key m ≡ some k → 1 ≤ length m
unfolding max_key
nonempty_of_max [] k e = absurd (cc e)
nonempty_of_max (x ∷ m) k e = omega arith

module _ {S R O : Type 0} {IsReady : S → Type 0} {entries : S → List (ℕ × R)} {others : S → O}
    {st : RotatingStore S R} {missing : LotlError} {expired : ℕ → R → Bool}
    (laws : RotatingLaws IsReady entries others st missing expired) where
  -- Where no rotation is due, the store has a key.
  pub needs_rotation-Ends :
      (timestamp : R → Result ℕ) (stamped : (r : R) → (t : ℕ) × (timestamp r ≡ ok t)) (now : ℕ)
      (s : S)
      → IsReady s
      → Ends
          (λ due t. (t ≡ s) × (due ≡ false → 1 ≤ length (entries s)))
          (needs_rotation st timestamp (ok now) s)
  unfolding needs_rotation age_check ◌>>=◌
  needs_rotation-Ends timestamp stamped now s r =
      rw (laws.get_max_key_id_lem s r) (elim (Option-cases (max_key (entries s))) [
        | inl e ↦
            rw e (record { value = true; succeeds = refl; after = (refl, λ h. absurd (cc h)) })
        | inr (k, e) ↦
            let found : (v : R) × (lookup k (entries s) ≡ some v) =
              lookup_of_contains k (entries s) (contains-max (entries s) k e) in
            rw (e, laws.get_key_lem s k r, found.1, (stamped found.0).1)
              (record {
                value = ltb rotation_interval_secs (sub_u64 now (stamped found.0).0 / 1000);
                succeeds = refl;
                after = (refl, λ h. nonempty_of_max (entries s) k e);
              })
      ])

  pub rotated_if-Ends :
      (due : Bool) (rotate : Exec S (Unit {0})) (v : R) (s : S)
      → IsReady s
      → Distinct (λ (j : ℕ). j) (keys (entries s))
      → (due ≡ false → 1 ≤ length (entries s))
      → Rotated IsReady entries others s v (rotate s)
      → Ends (λ b t. (b ≡ due) × Held IsReady entries others s t) (rotated_if due rotate s)
  unfolding rotated_if
  rotated_if-Ends true rotate v s r d h rot =
      Ends-then {Q = λ a t. t ≡ (rotate s).1} _ _ s
        (Ends-map_err as_storage_error rotate s
          (record { value = tt; succeeds = rot.succeeds; after = refl }))
        (λ a t e. Ends-pure true t (
          refl,
          rw e (record {
            ready = rot.ready;
            distinct = rot.distinct;
            nonempty = rw rot.content (omega (arith, length-append_one (entries s) _));
            frame = rot.frame;
          }),
        ))
  rotated_if-Ends false rotate v s r d h rot =
      Ends-pure false s (refl, record { ready = r; distinct = d; nonempty = h refl; frame = refl })

  -- One store's part of a maintenance, before the rest of it.
  pub rotation-Ends :
      {B : Type 0} {P : B → S → Type 0} (timestamp : R → Result ℕ)
      (stamped : (r : R) → (t : ℕ) × (timestamp r ≡ ok t)) (now : ℕ) (rotate : Exec S (Unit {0}))
      (v : R) (k : Bool → Exec S B) (s : S)
      → IsReady s
      → Distinct (λ (j : ℕ). j) (keys (entries s))
      → Rotated IsReady entries others s v (rotate s)
      → ((b : Bool) (t : S) → Held IsReady entries others s t → Ends P (k b t))
      → Ends P (
          (map_err as_storage_error (needs_rotation st timestamp (ok now)) >>= λ due.
          rotated_if due rotate >>= k)
            s)
  rotation-Ends timestamp stamped now rotate v k s ready distinct rotated rest =
      Ends-then _ _ s (Ends-map_err _ _ s (needs_rotation-Ends timestamp stamped now s ready))
        (λ due t (e, held). rw e (
          Ends-then _ _ s (rotated_if-Ends due rotate v s ready distinct held rotated)
            (λ b u after. rest b u after.1)))

  pub cleanup-Ends :
      (now : ℕ) (s : S)
      → IsReady s
      → Distinct (λ (j : ℕ). j) (keys (entries s))
      → 1 ≤ length (entries s)
      → Ends
          (λ a t. (IsReady t) × (1 ≤ length (entries t)) × (others t ≡ others s))
          ((lift (ok now) >>= cleanup_expired st) s)
  cleanup-Ends now s r d h = Ends-lift_step _ _ s now refl (record {
    value = tt;
    succeeds = (cleanup-Becomes laws now s r).succeeds;
    after = (
      (cleanup-Becomes laws now s r).ready,
      cleanup_keeps_one laws now s r d h,
      (cleanup-Becomes laws now s r).frame,
    );
  })
