-- ===== src/Sqlite/KeyTable/Laws.antt =====
-- A key table of SQLite keeps the laws of a rotating store.
use lotl.Prelude.{
  number_eq, ℕ, suc, ◌+◌, ◌*◌, ◌/◌, ◌≡◌, refl, ap, ◌∙◌, false, none, some, List, [], ◌∷◌, length,
  ltb, ◌==◌, Bool-cases, inl, inr, arith, Option-cases,
}
use lotl.Errors.{SignalProtocolError, signal_protocol}
use lotl.Exec.{Result, ok, err, ◌>>=◌}
use lotl.Sql.{Connection, quiet, statement-quiet, query-quiet}
use lotl.HashMap.{lookup, insert, remove, max_key, keys_where}
use lotl.StorageTrait.{RotatingStore}
use lotl.StorageTrait.Laws.{Becomes, RotatingLaws, or_missing, is_seconds_before}
use lotl.Sqlite.Tables.{KeyRow}
use lotl.Sqlite.KeyTable
use lotl.Sqlite.KeyTable.{Table, RecordFormat, row_or_none, decoded}

-- What the code relies on: every record of libsignal can be serialized and read back, and has a
-- timestamp and a signature.
pub record FormatLaws {R : Type 0} (format : RecordFormat R) : Type 0 where
  pub bytes : R → List ℕ
  pub millis : R → ℕ
  pub signed : R → List ℕ
  pub serialize_lem : (r : R) → format.serialize r ≡ ok (bytes r)
  pub deserialize_lem : (r : R) → format.deserialize (bytes r) ≡ ok r
  pub timestamp_lem : (r : R) → format.timestamp r ≡ ok (millis r)
  pub signature_lem : (r : R) → format.signature r ≡ ok (signed r)

module _ {R : Type 0} (format : RecordFormat R) where
  keep_decoded : ℕ → Result R → List (ℕ × R) → List (ℕ × R)
  keep_decoded id (ok r) m = (id, r) ∷ m
  keep_decoded id (err e) m = m

  -- The records that a table holds.
  unfoldable pub decode : List (ℕ × KeyRow) → List (ℕ × R)
  unfolding keep_decoded
  decode [] = []
  decode ((id, row) ∷ m) = keep_decoded id (format.deserialize row.key_data) (decode m)

  module _ (laws : FormatLaws format) where
    pub row_of : R → KeyRow
    row_of r = record {
      key_data = laws.bytes r;
      signature = laws.signed r;
      created_at = laws.millis r / 1000;
      expires_at = laws.millis r / 1000 + 30 * 24 * 60 * 60;
      is_current = false;
    }

    unfoldable pub encode : List (ℕ × R) → List (ℕ × KeyRow)
    unfolding row_of
    encode [] = []
    encode ((id, r) ∷ m) = (id, row_of r) ∷ encode m

    decode-encode : (m : List (ℕ × R)) → decode (encode m) ≡ m
    unfolding decode encode row_of keep_decoded
    decode-encode [] = refl
    decode-encode ((id, r) ∷ m) = rw (laws.deserialize_lem r, decode-encode m)

    insert-encode :
        (id : ℕ) (r : R) (m : List (ℕ × R))
        → insert id (row_of r) (encode m) ≡ encode (insert id r m)
    unfolding encode insert
    insert-encode id r [] = refl
    insert-encode id r ((j, w) ∷ m) = elim (Bool-cases (j == id)) [
      | inl e ↦ rw e refl
      | inr e ↦ rw (e, insert-encode id r m) refl
    ]

    remove-encode : (id : ℕ) (m : List (ℕ × R)) → remove id (encode m) ≡ encode (remove id m)
    unfolding encode remove
    remove-encode id [] = refl
    remove-encode id ((j, w) ∷ m) = elim (Bool-cases (j == id)) [
      | inl e ↦ rw (e, remove-encode id m) refl
      | inr e ↦ rw (e, remove-encode id m) refl
    ]

    lookup-encode : (id : ℕ) (m : List (ℕ × R)) → lookup id m ≡ none → lookup id (encode m) ≡ none
    unfolding encode lookup
    lookup-encode id [] h = refl
    lookup-encode id ((j, w) ∷ m) h = ground (arith, lookup-encode id m)

    lookup-encode-some :
        (id : ℕ) (m : List (ℕ × R)) (r : R)
        → lookup id m ≡ some r
        → lookup id (encode m) ≡ some (row_of r)
    unfolding encode lookup
    lookup-encode-some id [] r h = cc
    lookup-encode-some id ((j, w) ∷ m) r h = ground (arith, lookup-encode-some id m r)

    length-encode : (m : List (ℕ × R)) → length (encode m) ≡ length m
    unfolding encode
    length-encode [] = refl
    length-encode ((j, w) ∷ m) = ap suc (length-encode m)

    max_key-encode : (m : List (ℕ × R)) → max_key (encode m) ≡ max_key m
    unfolding encode max_key
    max_key-encode [] = refl
    max_key-encode ((j, w) ∷ m) = rw (max_key-encode m)

    keys_where-encode :
        (t : ℕ) (m : List (ℕ × R))
        → keys_where (λ row. ltb row.created_at (t / 1000)) (encode m)
          ≡ keys_where (is_seconds_before format.timestamp t) m
    unfolding encode keys_where row_of
    keys_where-encode t [] = refl
    keys_where-encode t ((j, w) ∷ m) =
        rw (keys_where-encode t m, is_seconds_before, laws.timestamp_lem w)

-- A table of a database whose other content is `rest`.
module _ {T R O : Type 0} (table : Table T KeyRow) (format : RecordFormat R)
    (missing : SignalProtocolError) (laws : FormatLaws format) (rest : T → O)
    (rest-set_rows : (l : List (ℕ × KeyRow)) (t : T) → rest (table.set_rows l t) ≡ rest t)
    (IsRestReady : O → Type 0) where
  abbrev pub entries : Connection T → List (ℕ × R)
  entries c = decode format (table.rows c.tables)

  abbrev pub others : Connection T → O
  others c = rest c.tables

  -- The engine refuses nothing, and every row is one that `save_key` writes.
  pub record IsReady (c : Connection T) : Type 0 where
    pub quiet_engine : c.faults ≡ []
    pub well_formed : table.rows c.tables ≡ encode format laws (entries c)
    pub rest_ready : IsRestReady (rest c.tables)

  abbrev pub store : RotatingStore (Connection T) R
  store = record {
    get_key = KeyTable.get_key table format missing;
    save_key = KeyTable.save_key table format missing;
    key_count = KeyTable.key_count table format missing;
    get_max_key_id = KeyTable.get_max_key_id table format missing;
    delete_key = KeyTable.delete_key table format missing;
    get_keys_older_than = KeyTable.get_keys_older_than table format missing;
  }

  -- A write that leaves the encoding of `m`.
  written :
      (c : Connection T) (l : List (ℕ × KeyRow)) (m : List (ℕ × R))
      → IsReady c
      → l ≡ encode format laws m
      → Becomes IsReady entries others c m (ok tt, quiet (table.set_rows l c.tables))
  written c l m r e = record {
    succeeds = refl;
    ready = record {
      quiet_engine = refl;
      well_formed = rw (table.rows-set_rows l c.tables, e, decode-encode format laws m);
      rest_ready = rw (rest-set_rows l c.tables) r.rest_ready;
    };
    content = rw (table.rows-set_rows l c.tables, e, decode-encode format laws m);
    frame = rest-set_rows l c.tables;
  }

  save_key-Becomes :
      (c : Connection T) (id : ℕ) (r : R)
      → IsReady c
      → Becomes IsReady entries others c (insert id r (entries c)) (store.save_key id r c)
  unfolding KeyTable.save_key row_of ◌>>=◌
  save_key-Becomes c id r ready =
      rw
        (
          laws.serialize_lem r,
          laws.timestamp_lem r,
          laws.signature_lem r,
          statement-quiet _ c ready.quiet_engine,
        )
        (written c _ (insert id r (entries c)) ready (
          ap (insert id (row_of format laws r)) ready.well_formed
          ∙ insert-encode format laws id r (entries c)))

  delete_key-Becomes :
      (c : Connection T) (id : ℕ)
      → IsReady c
      → Becomes IsReady entries others c (remove id (entries c)) (store.delete_key id c)
  unfolding KeyTable.delete_key
  delete_key-Becomes c id ready = rw (statement-quiet {A = Unit {0}} _ c ready.quiet_engine) (
      written c _ (remove id (entries c)) ready
        (ap (remove id) ready.well_formed ∙ remove-encode format laws id (entries c)))

  get_key_lem :
      (c : Connection T) (id : ℕ)
      → IsReady c
      → store.get_key id c ≡ (or_missing (signal_protocol missing) (lookup id (entries c)), c)
  unfolding KeyTable.get_key row_of ◌>>=◌
  get_key_lem c id ready =
      rw (query-quiet (λ t. row_or_none (lookup id (table.rows t))) c ready.quiet_engine)
        (elim (Option-cases (lookup id (entries c))) [
          | inl e ↦ rw (e, ready.well_formed, lookup-encode format laws id (entries c) e)
          | inr (r, e) ↦ rw (
            e,
            ready.well_formed,
            lookup-encode-some format laws id (entries c) r e,
            laws.deserialize_lem r,
          )
        ])

  -- For a record type that can be serialized and read back: with an engine that refuses nothing and
  -- rows that `save_key` wrote, the methods on a key table are those of a finite map from ids to
  -- records that finds the records of a second before the cutoff's, and change no other table.
  pub KeyTable-RotatingLaws :
      RotatingLaws IsReady entries others store
        (signal_protocol missing)
        (is_seconds_before format.timestamp)
  unfolding KeyTable.key_count KeyTable.get_max_key_id KeyTable.get_keys_older_than ◌>>=◌
  KeyTable-RotatingLaws = record {
    get_key_lem = get_key_lem;
    save_key_lem = save_key-Becomes;
    key_count_lem = λ c ready. rw (
      query-quiet (λ t. ok (length (table.rows t))) c ready.quiet_engine,
      ready.well_formed,
      length-encode format laws (entries c),
      decode-encode format laws (entries c),
    );
    get_max_key_id_lem = λ c ready. rw (
      query-quiet (λ t. ok (max_key (table.rows t))) c ready.quiet_engine,
      ready.well_formed,
      max_key-encode format laws (entries c),
      decode-encode format laws (entries c),
    );
    delete_key_lem = delete_key-Becomes;
    get_keys_older_than_lem = λ c t ready. rw (
      query-quiet (λ u. ok (keys_where (λ row. ltb row.created_at (t / 1000)) (table.rows u))) c
          ready.quiet_engine,
      ready.well_formed,
      keys_where-encode format laws t (entries c),
      decode-encode format laws (entries c),
    );
  }
