-- ===== src/KeyFile/Durable.antt =====
-- The key of a database outlives the call that made it, unless its file cannot be read once.
use lotl.Prelude.{
  string_eq, ℕ, zero, suc, String, ◌≤◌, ◌≡◌, ◌≢◌, refl, ap, ◌∙◌, true, false, none, some, List, [],
  ◌∷◌, ◌++◌, ◌==◌, ltb, length, take, Bool-cases, Option-cases, inl, inr, eq_iff, arith,
}
use lotl.Errors.{LotlError}
use lotl.Exec.{Result, ok, err, ◌>>=◌}
use lotl.HashMap.{lookup, insert}
use lotl.HashMap.Laws.{lookup-insert_self}
use lotl.KeyFile.{
  Disk, system_call, open_file, read_key, create_file, write_all, get_key_file_path, content_of,
  or_empty, key_storage, store_db_key, retrieve_db_key, key_or_new, get_or_create_db_key,
}

-- A disk on which no call fails.
abbrev pub sound : List (String × List ℕ) → Disk
sound files = record { files = files; faults = [] }

not_memory :
    (db_path : String) → ◌≢◌ {A = String} db_path ":memory:" → (db_path == ":memory:") ≡ false
not_memory db_path h = elim (Bool-cases (db_path == ":memory:")) [
  | inl e ↦ absurd (h ((eq_iff db_path ":memory:").0 e))
  | inr e ↦ e
]

take_all : {A : Type 0} (n : ℕ) (l : List A) → length l ≡ n → take n l ≡ l
take_all zero [] h = refl
take_all zero (x ∷ l) h = absurd (omega arith)
take_all (suc n) [] h = refl
take_all (suc n) (x ∷ l) h = ap (λ m. x ∷ m) (take_all n l (omega arith))

length-take : {A : Type 0} (n : ℕ) (l : List A) → n ≤ length l → length (take n l) ≡ n
length-take zero l h = refl
length-take (suc n) [] h = absurd (omega arith)
length-take (suc n) (x ∷ l) h = ap suc (length-take n l (omega arith))

short_not : (n : ℕ) → 32 ≤ n → ltb n 32 ≡ false
short_not n h = ground arith

module _ (db_path : String) (on_disk : ◌≢◌ {A = String} db_path ":memory:") where
  retrieve_db_key-reads :
      (files : List (String × List ℕ)) (bytes : List ℕ)
      → lookup (get_key_file_path db_path) files ≡ some bytes
      → 32 ≤ length bytes
      → retrieve_db_key db_path (sound files) ≡ (ok (take 32 bytes), sound files)
  unfolding retrieve_db_key open_file read_key system_call ◌>>=◌
  retrieve_db_key-reads files bytes found whole =
      rw (not_memory db_path on_disk, found) (rw (short_not (length bytes) whole) refl)

  unread :
      (files : List (String × List ℕ))
      → lookup (get_key_file_path db_path) files ≡ none
      → retrieve_db_key db_path (sound files)
        ≡ (err (key_storage "Failed to open key file: "), sound files)
  unfolding retrieve_db_key open_file read_key system_call ◌>>=◌
  unread files missing = rw (not_memory db_path on_disk, missing)

  too_short :
      (files : List (String × List ℕ)) (bytes : List ℕ)
      → lookup (get_key_file_path db_path) files ≡ some bytes
      → ltb (length bytes) 32 ≡ true
      → retrieve_db_key db_path (sound files)
        ≡ (err (key_storage "Failed to read key: "), sound files)
  unfolding retrieve_db_key open_file read_key system_call ◌>>=◌
  too_short files bytes found short = rw (not_memory db_path on_disk, found) (rw short refl)

  module _ (key : List ℕ) where
    -- The files after a new key is stored, whatever was in its file.
    abbrev stored : List (String × List ℕ) → List (String × List ℕ)
    stored files =
        insert (get_key_file_path db_path)
          (content_of (get_key_file_path db_path) (insert (get_key_file_path db_path) [] files)
            ++ key)
          (insert (get_key_file_path db_path) [] files)

    store_db_key-writes :
        (files : List (String × List ℕ))
        → store_db_key db_path key (sound files) ≡ (ok tt, sound (stored files))
    unfolding store_db_key create_file write_all system_call ◌>>=◌
    store_db_key-writes files = rw (not_memory db_path on_disk)

    lookup-stored :
        (files : List (String × List ℕ))
        → lookup (get_key_file_path db_path) (stored files) ≡ some key
    lookup-stored files =
        lookup-insert_self (get_key_file_path db_path) _
          (insert (get_key_file_path db_path) [] files)
        ∙ ap (λ o. some (or_empty o ++ key))
            (lookup-insert_self (get_key_file_path db_path) [] files)

    retrieve-stored :
        (files : List (String × List ℕ))
        → length key ≡ 32
        → retrieve_db_key db_path (sound (stored files)) ≡ (ok key, sound (stored files))
    retrieve-stored files whole =
        retrieve_db_key-reads (stored files) key (lookup-stored files) (omega arith)
        ∙ ap (λ k. (ok k, sound (stored files))) (take_all 32 key whole)

    -- A stored key is returned.
    kept_of_read :
        (files : List (String × List ℕ)) (old : List ℕ)
        → retrieve_db_key db_path (sound files) ≡ (ok old, sound files)
        → get_or_create_db_key db_path key (sound files) ≡ (ok old, sound files)
    unfolding get_or_create_db_key key_or_new ◌>>=◌
    kept_of_read files old e = rw e

    -- A key that cannot be read is replaced.
    created_of_unread :
        (files : List (String × List ℕ)) (e : LotlError)
        → retrieve_db_key db_path (sound files) ≡ (err e, sound files)
        → get_or_create_db_key db_path key (sound files) ≡ (ok key, sound (stored files))
    unfolding get_or_create_db_key key_or_new ◌>>=◌
    created_of_unread files e unread' = rw (unread', store_db_key-writes files)

    refused :
        (files : List (String × List ℕ)) (n : ℕ)
        → get_or_create_db_key db_path key (record { files = files; faults = some n ∷ [] })
          ≡ (ok key, sound (stored files))
    unfolding get_or_create_db_key retrieve_db_key open_file system_call key_or_new ◌>>=◌
    refused files n = rw (not_memory db_path on_disk, store_db_key-writes files)

  -- What the later calls find.
  pub record Kept (o : Result (List ℕ) × Disk) : Type 0 where
    pub key : List ℕ
    pub returned : o.0 ≡ ok key
    pub whole : length key ≡ 32
    pub again : (other_key : List ℕ) → get_or_create_db_key db_path other_key o.1 ≡ (ok key, o.1)

  existing_key :
      (files : List (String × List ℕ)) (key bytes : List ℕ)
      → lookup (get_key_file_path db_path) files ≡ some bytes
      → 32 ≤ length bytes
      → Kept (get_or_create_db_key db_path key (sound files))
  existing_key files key bytes found whole =
      let read = retrieve_db_key-reads files bytes found whole in
      rw (kept_of_read key files (take 32 bytes) read) (record {
        key = take 32 bytes;
        returned = refl;
        whole = length-take 32 bytes whole;
        again = λ other. kept_of_read other files (take 32 bytes) read;
      })

  created_key :
      (files : List (String × List ℕ)) (key : List ℕ) (e : LotlError)
      → length key ≡ 32
      → retrieve_db_key db_path (sound files) ≡ (err e, sound files)
      → Kept (get_or_create_db_key db_path key (sound files))
  created_key files key e whole unread' = rw (created_of_unread key files e unread') (record {
    key = key;
    returned = refl;
    whole = whole;
    again = λ other. kept_of_read other (stored key files) key (retrieve-stored key files whole);
  })

  -- For a database on disk, where no call to the system fails and the generated key has 32 bytes: the
  -- key of the database is there after the call, 32 bytes long, whatever its file held before, and
  -- every later call returns it and writes nothing, whichever key it would generate.
  pub get_or_create_db_key-again :
      (files : List (String × List ℕ)) (key : List ℕ)
      → length key ≡ 32
      → Kept (get_or_create_db_key db_path key (sound files))
  get_or_create_db_key-again files key whole =
      elim (Option-cases (lookup (get_key_file_path db_path) files)) [
        | inl e ↦ created_key files key _ whole (unread files e)
        | inr (bytes, e) ↦ elim (Bool-cases (ltb (length bytes) 32)) [
          | inl short ↦ created_key files key _ whole (too_short files bytes e short)
          | inr long ↦ existing_key files key bytes e (ground arith)
        ]
      ]

  -- For a database on disk: when the system refuses to open the key file once, the call still
  -- succeeds, with the generated key, and that key is in the file from then on: the stored key is
  -- lost, although it could have been read a moment later.
  pub get_or_create_db_key-loses_key :
      (files : List (String × List ℕ)) (old key : List ℕ) (n : ℕ)
      → length old ≡ 32
      → length key ≡ 32
      → lookup (get_key_file_path db_path) files ≡ some old
      → (retrieve_db_key db_path (sound files) ≡ (ok old, sound files))
        × ((get_or_create_db_key db_path key (record { files = files; faults = some n ∷ [] })).0
            ≡ ok key)
        × ((retrieve_db_key db_path
              (get_or_create_db_key db_path key
                (record { files = files; faults = some n ∷ [] })).1).0
            ≡ ok key)
  get_or_create_db_key-loses_key files old key n whole_old whole found = (
    retrieve_db_key-reads files old found (omega arith)
        ∙ ap (λ k. (ok k, sound files)) (take_all 32 old whole_old),
    rw (refused key files n) refl,
    rw (refused key files n, retrieve-stored key files whole) refl,
  )
