-- ===== src/Memory/Laws.antt =====
-- The in-memory stores keep the laws that rotation asks of a backend.
use lotl.Prelude.{number_eq, ℕ, ◌≡◌, refl, sym, List, Option-cases, inl, inr}
use lotl.Errors.{LotlError}
use lotl.Exec.{Result, ok, ◌>>=◌}
use lotl.HashMap.{lookup, insert, remove}
use lotl.HashMap.Values.{
  map_values, insert-map_values, remove-map_values, length-map_values, max_key-map_values,
}
use lotl.StorageTrait.Laws.{or_missing, Becomes, RotatingLaws, PreKeyLaws}
use lotl.Memory.{
  MemoryStorage, Field, modify, get_cloned, count, max_id, is_older, older_than, rotating_store,
  save_pre_key, memory_pre_key_store,
}

-- A memory store never fails.
abbrev pub IsUp : {S : Type 0} → S → Type 0
IsUp s = Unit

module _ {S R O : Type 0} (field : Field S R) (others : S → O)
    (read-write : (m : List (ℕ × R)) (s : S) → field.read (field.write m s) ≡ m)
    (others-write : (m : List (ℕ × R)) (s : S) → others (field.write m s) ≡ others s) where
  modify-Becomes :
      (f : List (ℕ × R) → List (ℕ × R)) (s : S)
      → Becomes IsUp field.read others s (f (field.read s)) (modify field f s)
  unfolding modify
  modify-Becomes f s = record {
    succeeds = refl;
    ready = tt;
    content = read-write (f (field.read s)) s;
    frame = others-write (f (field.read s)) s;
  }

  get_cloned_lem :
      (missing : LotlError) (id : ℕ) (s : S)
      → get_cloned field missing id s ≡ (or_missing missing (lookup id (field.read s)), s)
  unfolding get_cloned ◌>>=◌
  get_cloned_lem missing id s = elim (Option-cases (lookup id (field.read s))) [
    | inl e ↦ rw e
    | inr (r, e) ↦ rw e
  ]

  -- One map of signed or of Kyber pre-keys.
  pub memory-RotatingLaws :
      (timestamp : R → Result ℕ) (missing : LotlError)
      → RotatingLaws IsUp field.read others
          (rotating_store field timestamp missing)
          missing
          (is_older field timestamp)
  unfolding count max_id older_than ◌>>=◌
  memory-RotatingLaws timestamp missing = record {
    get_key_lem = λ s id r. get_cloned_lem missing id s;
    save_key_lem = λ s id v r. modify-Becomes (insert id v) s;
    key_count_lem = λ s r. refl;
    get_max_key_id_lem = λ s r. refl;
    delete_key_lem = λ s id r. modify-Becomes (remove id) s;
    get_keys_older_than_lem = λ s t r. refl;
  }

module _ {Signed Kyber KeyPair PreKey : Type 0} (new_pre_key : ℕ → KeyPair → PreKey)
    (key_pair : PreKey → Result KeyPair)
    (key_pair-new : (id : ℕ) (k : KeyPair) → key_pair (new_pre_key id k) ≡ ok k) where
  abbrev pub pre_key_entries : MemoryStorage Signed Kyber KeyPair → List (ℕ × PreKey)
  pre_key_entries s = map_values new_pre_key s.pre_keys

  abbrev pub other_maps : MemoryStorage Signed Kyber KeyPair → List (ℕ × Signed) × List (ℕ × Kyber)
  other_maps s = (s.signed_pre_keys, s.kyber_pre_keys)

  -- The one-time keys.
  pub memory-PreKeyLaws :
      PreKeyLaws IsUp pre_key_entries other_maps
        (memory_pre_key_store new_pre_key key_pair)
        new_pre_key
  unfolding save_pre_key count max_id modify ◌>>=◌
  memory-PreKeyLaws = record {
    save_pre_key_lem = λ s id k r. rw (key_pair-new id k) (record {
      succeeds = refl;
      ready = tt;
      content = sym (insert-map_values new_pre_key id k s.pre_keys);
      frame = refl;
    });
    pre_key_count_lem = λ s r. rw (length-map_values new_pre_key s.pre_keys);
    get_max_pre_key_id_lem = λ s r. rw (max_key-map_values new_pre_key s.pre_keys);
    delete_pre_key_lem = λ s id r. record {
      succeeds = refl;
      ready = tt;
      content = sym (remove-map_values new_pre_key id s.pre_keys);
      frame = refl;
    };
  }
