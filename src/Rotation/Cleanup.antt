-- ===== src/Rotation/Cleanup.antt =====
-- The cleanup of expired keys: `cleanup_expired_signed_pre_keys` and
-- `cleanup_expired_kyber_pre_keys` of src/key_rotation.rs, over any backend that keeps its laws.
pub mod Prune
use lotl.Prelude.{
  ℕ, ◌*◌, ◌≤◌, ◌≡◌, refl, sym, ◌∙◌, Bool, true, false, List, [], ◌∷◌, length, ltb, leb,
  if◌then◌else◌, Bool-cases, inl, inr, arith, number_eq, some, none,
}
use lotl.Prelude.Rows.{Distinct}
use lotl.Errors.{LotlError}
use lotl.Exec.{Result, ok, Exec, pure, ◌>>=◌, ◌>>◌}
use lotl.HashMap.{lookup, contains, remove, keys, keys_where}
use lotl.StorageTrait.{RotatingStore}
use lotl.StorageTrait.Laws.{Becomes, Becomes-then, Becomes-pure, RotatingLaws}
use lotl.Rotation.Words.{sub_u64}
use lotl.Rotation.Stores.{delete_expired, cleanup_expired, grace_period_secs}
use Prune.{
  prune, prune_small, lookup-prune, prune_nonempty, contains-prune, mem-keys_where_of_fails,
  mem-keys_where_of_passes,
}
use lotl.HashMap.Laws.{contains_of_lookup}

module _ {S R O : Type 0} {IsReady : S → Type 0} {entries : S → List (ℕ × R)} {others : S → O}
    {st : RotatingStore S R} {missing : LotlError} {expired : ℕ → R → Bool}
    (laws : RotatingLaws IsReady entries others st missing expired) where
  delete_one :
      (s : S) (id : ℕ) (b : Bool)
      → IsReady s
      → Becomes IsReady entries others s
          (if b then remove id (entries s) else entries s)
          ((if b then st.delete_key id else pure tt) s)
  delete_one s id true r = laws.delete_key_lem s id r
  delete_one s id false r = Becomes-pure s (entries s) r refl

  delete_expired-Becomes :
      (ids : List ℕ) (s : S)
      → IsReady s
      → Becomes IsReady entries others s (prune ids (entries s)) (delete_expired st ids s)
  unfolding delete_expired prune ◌>>=◌
  delete_expired-Becomes [] s r = Becomes-pure s (entries s) r refl
  delete_expired-Becomes (id ∷ ids) s r = rw (laws.key_count_lem s r) (
      Becomes-then s (if ltb 1 (length (entries s)) then remove id (entries s) else entries s) _
        (if ltb 1 (length (entries s)) then st.delete_key id else pure tt) (delete_expired st ids)
        (delete_one s id (ltb 1 (length (entries s))) r)
        (λ t rt e. rw (← e) (delete_expired-Becomes ids t rt)))

  abbrev cutoff : ℕ → ℕ
  cutoff now = sub_u64 now (grace_period_secs * 1000)

  -- What the whole cleanup makes of the entries.
  pub cleanup-Becomes :
      (now : ℕ) (s : S)
      → IsReady s
      → Becomes IsReady entries others s
          (prune (keys_where (expired (cutoff now)) (entries s)) (entries s))
          (cleanup_expired st now s)
  unfolding cleanup_expired ◌>>=◌
  cleanup-Becomes now s r =
      rw (laws.get_keys_older_than_lem s (cutoff now) r, laws.key_count_lem s r)
        (elim (Bool-cases (leb (length (entries s)) 1)) [
          | inl few ↦ rw few (
              Becomes-pure s _ r
                (sym (prune_small (keys_where (expired (cutoff now)) (entries s)) (entries s) few)))
          | inr many ↦
              rw many (delete_expired-Becomes (keys_where (expired (cutoff now)) (entries s)) s r)
        ])

  module _ (now : ℕ) (s : S) (ready : IsReady s)
      (distinct : Distinct (λ (j : ℕ). j) (keys (entries s))) where
    -- Over a backend that keeps the laws of a rotating store and is ready, with distinct ids: a key
    -- that is not older than the cutoff keeps its record through a cleanup.
    pub cleanup_keeps_fresh :
        (k : ℕ) (v : R)
        → lookup k (entries s) ≡ some v
        → expired (cutoff now) v ≡ false
        → lookup k (entries (cleanup_expired st now s).1) ≡ some v
    cleanup_keeps_fresh k v h fresh = rw (cleanup-Becomes now s ready).content (
        lookup-prune _ (entries s) k
          (mem-keys_where_of_fails (expired (cutoff now)) (entries s) k v distinct h fresh)
        ∙ h)

    -- Over a backend that keeps the laws of a rotating store and is ready, with distinct ids: a store
    -- that held a key still holds one after a cleanup, however old all its keys are.
    pub cleanup_keeps_one :
        1 ≤ length (entries s) → 1 ≤ length (entries (cleanup_expired st now s).1)
    cleanup_keeps_one h =
        rw (cleanup-Becomes now s ready).content (prune_nonempty _ (entries s) distinct h)

    -- Over a backend that keeps the laws of a rotating store and is ready, with distinct ids:
    -- beside a key that is not older than the cutoff, a cleanup deletes every key that is.
    pub cleanup_deletes_expired :
        (kept k : ℕ) (w v : R)
        → lookup kept (entries s) ≡ some w
        → expired (cutoff now) w ≡ false
        → lookup k (entries s) ≡ some v
        → expired (cutoff now) v ≡ true
        → contains k (entries (cleanup_expired st now s).1) ≡ false
    cleanup_deletes_expired kept k w v hk fresh h old = rw (cleanup-Becomes now s ready).content (
        contains-prune _ (entries s) kept k distinct (contains_of_lookup kept w (entries s) hk)
          (mem-keys_where_of_fails (expired (cutoff now)) (entries s) kept w distinct hk fresh)
          (mem-keys_where_of_passes (expired (cutoff now)) (entries s) k v h old))
