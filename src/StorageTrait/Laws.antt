-- ===== src/StorageTrait/Laws.antt =====
-- What a backend promises: its key stores are finite maps from ids to records.
use lotl.Prelude.{
  number_eq, ℕ, ◌/◌, ◌≡◌, refl, ◌∙◌, Bool, false, ltb, Option, none, some, List, length,
}
use lotl.Errors.{LotlError}
use lotl.Exec.{Result, ok, err, Exec, pure, ◌>>=◌, ◌>>◌}
use lotl.HashMap.{lookup, insert, remove, max_key, keys_where}
use lotl.StorageTrait.{RotatingStore, PreKeyStore}

abbrev pub or_missing : {R : Type 0} → LotlError → Option R → Result R
or_missing e none = err e
or_missing e (some r) = ok r

-- An action that succeeds and makes the entries `m`, touching nothing else.
pub record Becomes {S R O : Type 0} (IsReady : S → Type 0) (entries : S → List (ℕ × R))
    (others : S → O) (s : S) (m : List (ℕ × R)) (o : Result (Unit {0}) × S) : Type 0 where
  pub succeeds : o.0 ≡ ok tt
  pub ready : IsReady o.1
  pub content : entries o.1 ≡ m
  pub frame : others o.1 ≡ others s

module _ {S R O : Type 0} {IsReady : S → Type 0} {entries : S → List (ℕ × R)} {others : S → O} where
  -- One action after another.
  pub Becomes-then :
      (s : S) (m m' : List (ℕ × R)) (a k : Exec S (Unit {0}))
      → Becomes IsReady entries others s m (a s)
      → ((t : S) → IsReady t → entries t ≡ m → Becomes IsReady entries others t m' (k t))
      → Becomes IsReady entries others s m' ((a >> k) s)
  unfolding ◌>>=◌
  Becomes-then s m m' a k first rest =
      let t : S = (a s).1 in
      let after : Becomes IsReady entries others t m' (k t) = rest t first.ready first.content in
      rw first.succeeds (record {
        succeeds = after.succeeds;
        ready = after.ready;
        content = after.content;
        frame = after.frame ∙ first.frame;
      })

  -- Nothing is done.
  pub Becomes-pure :
      (s : S) (m : List (ℕ × R))
      → IsReady s
      → entries s ≡ m
      → Becomes IsReady entries others s m (pure tt s)
  unfolding ◌>>=◌
  Becomes-pure s m r e = record { succeeds = refl; ready = r; content = e; frame = refl }

-- The records of a time before the cutoff, in milliseconds, or by whole seconds. A record that
-- gives no time is never before.
abbrev pub is_before : {R : Type 0} → (R → Result ℕ) → ℕ → R → Bool
is_before timestamp cutoff r = elim (timestamp r) [ ok millis ↦ ltb millis cutoff | err e ↦ false ]

abbrev pub is_seconds_before : {R : Type 0} → (R → Result ℕ) → ℕ → R → Bool
is_seconds_before timestamp cutoff r = elim (timestamp r) [
  | ok millis ↦ ltb (millis / 1000) (cutoff / 1000)
  | err e ↦ false
]

-- A state is ready when the backend will not fail. `expired` is the backend's reading of "older".
module _ {S R O : Type 0} (IsReady : S → Type 0) (entries : S → List (ℕ × R)) (others : S → O) where
  pub record RotatingLaws (st : RotatingStore S R) (missing : LotlError) (expired : ℕ → R → Bool)
      : Type 0 where
    pub get_key_lem :
        (s : S) (id : ℕ)
        → IsReady s
        → st.get_key id s ≡ (or_missing missing (lookup id (entries s)), s)
    pub save_key_lem :
        (s : S) (id : ℕ) (r : R)
        → IsReady s
        → Becomes IsReady entries others s (insert id r (entries s)) (st.save_key id r s)
    pub key_count_lem : (s : S) → IsReady s → st.key_count s ≡ (ok (length (entries s)), s)
    pub get_max_key_id_lem :
        (s : S) → IsReady s → st.get_max_key_id s ≡ (ok (max_key (entries s)), s)
    pub delete_key_lem :
        (s : S) (id : ℕ)
        → IsReady s
        → Becomes IsReady entries others s (remove id (entries s)) (st.delete_key id s)
    pub get_keys_older_than_lem :
        (s : S) (t : ℕ)
        → IsReady s
        → st.get_keys_older_than t s ≡ (ok (keys_where (expired t) (entries s)), s)

  -- A one-time key is only saved under its own id.
  pub record PreKeyLaws {KeyPair : Type 0} (st : PreKeyStore S R) (new_pre_key : ℕ → KeyPair → R)
      : Type 0 where
    pub save_pre_key_lem :
        (s : S) (id : ℕ) (k : KeyPair)
        → IsReady s
        → Becomes IsReady entries others s
            (insert id (new_pre_key id k) (entries s))
            (st.save_pre_key id (new_pre_key id k) s)
    pub pre_key_count_lem : (s : S) → IsReady s → st.pre_key_count s ≡ (ok (length (entries s)), s)
    pub get_max_pre_key_id_lem :
        (s : S) → IsReady s → st.get_max_pre_key_id s ≡ (ok (max_key (entries s)), s)
    pub delete_pre_key_lem :
        (s : S) (id : ℕ)
        → IsReady s
        → Becomes IsReady entries others s (remove id (entries s)) (st.delete_pre_key id s)
