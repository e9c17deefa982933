-- ===== src/Sqlite/PreKeys/Laws.antt =====
-- The table `pre_keys` of SQLite keeps the laws of a store of one-time pre-keys.
use lotl.Prelude.{number_eq, ℕ, ◌≡◌, refl, ap, ◌∙◌, sym, Option, none, some, List, [], ◌∷◌, length}
use mathlib.Core.Option.{some-injective}
use lotl.Errors.{signal_protocol, invalid_pre_key_id}
use lotl.Exec.{Result, ok, err, ◌>>=◌}
use lotl.Sql.{Connection, quiet, statement-quiet, query-quiet}
use lotl.HashMap.{lookup, insert, remove, max_key}
use lotl.HashMap.Values.{
  value_at, map_values, insert-map_values, remove-map_values, lookup-map_values, length-map_values,
  max_key-map_values,
}
use lotl.StorageTrait.Laws.{Becomes, PreKeyLaws, or_missing}
use lotl.Sqlite.Tables.{SignalTables, PreKeyRow}
use lotl.Sqlite.KeyTable.{row_or_none}
use lotl.Sqlite.PreKeys.{
  loaded, get_pre_key, save_pre_key, pre_key_count, get_max_pre_key_id, delete_pre_key,
  pre_key_store,
}

abbrev pub data_of : ℕ → PreKeyRow → List ℕ
data_of id row = row.key_data

module _ {PreKey : Type 0} (deserialize : List ℕ → Result PreKey) where
  keep_decoded : ℕ → Result PreKey → List (ℕ × PreKey) → List (ℕ × PreKey)
  keep_decoded id (ok r) m = (id, r) ∷ m
  keep_decoded id (err e) m = m

  unfoldable pub decode : List (ℕ × List ℕ) → List (ℕ × PreKey)
  unfolding keep_decoded
  decode [] = []
  decode ((id, bytes) ∷ m) = keep_decoded id (deserialize bytes) (decode m)

  -- The records that the table holds.
  abbrev pub entries : Connection SignalTables → List (ℕ × PreKey)
  entries c = decode (map_values data_of c.tables.pre_keys)

-- The other tables.
abbrev pub Others : Type 0
Others = SignalTables

abbrev pub others : Connection SignalTables → Others
others c = record (c.tables) { pre_keys = [] }

-- What the code relies on: every pre-key record can be serialized and read back.
pub record BytesLaws {R : Type 0} (deserialize : List ℕ → Result R)
    (serialize : R → Result (List ℕ)) : Type 0 where
  pub bytes : R → List ℕ
  pub serialize_lem : (r : R) → serialize r ≡ ok (bytes r)
  pub deserialize_lem : (r : R) → deserialize (bytes r) ≡ ok r

abbrev pub data_for :
    {R : Type 0} {deserialize : List ℕ → Result R} {serialize : R → Result (List ℕ)}
    → BytesLaws deserialize serialize
    → ℕ
    → R
    → List ℕ
data_for laws id r = laws.bytes r

module _ {PreKey : Type 0} (deserialize : List ℕ → Result PreKey)
    (serialize : PreKey → Result (List ℕ)) (laws : BytesLaws deserialize serialize)
    (IsRestReady : Others → Type 0) where
  decode-bytes : (m : List (ℕ × PreKey)) → decode deserialize (map_values (data_for laws) m) ≡ m
  unfolding decode keep_decoded map_values
  decode-bytes [] = refl
  decode-bytes ((id, r) ∷ m) = rw (laws.deserialize_lem r, decode-bytes m)

  -- The engine refuses nothing, and the key of every row can be read back.
  pub record IsReady (c : Connection SignalTables) : Type 0 where
    pub quiet_engine : c.faults ≡ []
    pub well_formed :
        map_values data_of c.tables.pre_keys ≡ map_values (data_for laws) (entries deserialize c)
    pub rest_ready : IsRestReady (others c)

  written :
      (c : Connection SignalTables) (l : List (ℕ × PreKeyRow)) (m : List (ℕ × PreKey))
      → IsReady c
      → map_values data_of l ≡ map_values (data_for laws) m
      → Becomes IsReady
          (entries deserialize)
          others
          c
          m
          (ok tt, quiet (record (c.tables) { pre_keys = l }))
  written c l m r e = record {
    succeeds = refl;
    ready = record {
      quiet_engine = refl;
      well_formed = rw (e, decode-bytes m);
      rest_ready = r.rest_ready;
    };
    content = rw (e, decode-bytes m);
    frame = refl;
  }

  save_pre_key-Becomes :
      (now : ℕ) (c : Connection SignalTables) (id : ℕ) (r : PreKey)
      → IsReady c
      → Becomes IsReady
          (entries deserialize)
          others
          c
          (insert id r (entries deserialize c))
          (save_pre_key deserialize serialize now id r c)
  unfolding save_pre_key ◌>>=◌
  save_pre_key-Becomes now c id r ready =
      rw (laws.serialize_lem r, statement-quiet {A = Unit {0}} _ c ready.quiet_engine)
        (written c _ (insert id r (entries deserialize c)) ready (
          sym (insert-map_values data_of id _ c.tables.pre_keys)
          ∙ ap (insert id (laws.bytes r)) ready.well_formed
          ∙ insert-map_values (data_for laws) id r (entries deserialize c)))

  delete_pre_key-Becomes :
      (c : Connection SignalTables) (id : ℕ)
      → IsReady c
      → Becomes IsReady
          (entries deserialize)
          others
          c
          (remove id (entries deserialize c))
          (delete_pre_key id c)
  unfolding delete_pre_key
  delete_pre_key-Becomes c id ready = rw (statement-quiet {A = Unit {0}} _ c ready.quiet_engine) (
      written c _ (remove id (entries deserialize c)) ready (
        sym (remove-map_values data_of id c.tables.pre_keys)
        ∙ ap (remove id) ready.well_formed
        ∙ remove-map_values (data_for laws) id (entries deserialize c)))

  same_length :
      (c : Connection SignalTables)
      → IsReady c
      → length c.tables.pre_keys ≡ length (entries deserialize c)
  same_length c r =
      sym (length-map_values data_of c.tables.pre_keys)
      ∙ ap length r.well_formed
      ∙ length-map_values (data_for laws) (entries deserialize c)

  same_max :
      (c : Connection SignalTables)
      → IsReady c
      → max_key c.tables.pre_keys ≡ max_key (entries deserialize c)
  same_max c r =
      sym (max_key-map_values data_of c.tables.pre_keys)
      ∙ ap max_key r.well_formed
      ∙ max_key-map_values (data_for laws) (entries deserialize c)

  same_lookup :
      (c : Connection SignalTables) (id : ℕ)
      → IsReady c
      → value_at (data_of id) (lookup id c.tables.pre_keys)
        ≡ value_at (data_for laws id) (lookup id (entries deserialize c))
  same_lookup c id r =
      sym (lookup-map_values data_of id c.tables.pre_keys)
      ∙ ap (lookup id) r.well_formed
      ∙ lookup-map_values (data_for laws) id (entries deserialize c)

  read_back :
      (rows : Option PreKeyRow) (held : Option PreKey) (id : ℕ) (c : Connection SignalTables)
      → value_at (data_of id) rows ≡ value_at (data_for laws id) held
      → loaded deserialize serialize (row_or_none rows) c
        ≡ (or_missing (signal_protocol invalid_pre_key_id) held, c)
  unfolding loaded ◌>>=◌
  read_back none none id c e = refl
  read_back none (some r) id c e = absurd (cc e)
  read_back (some row) none id c e = absurd (cc e)
  read_back (some row) (some r) id c e = rw (some-injective _ _ e, laws.deserialize_lem r)

  -- A stored one-time key is read back.
  pub get_pre_key_lem :
      (c : Connection SignalTables) (id : ℕ)
      → IsReady c
      → get_pre_key deserialize serialize id c
        ≡ (or_missing (signal_protocol invalid_pre_key_id) (lookup id (entries deserialize c)), c)
  unfolding get_pre_key ◌>>=◌
  get_pre_key_lem c id ready =
      rw (query-quiet (λ t. row_or_none (lookup id t.pre_keys)) c ready.quiet_engine)
        (read_back _ _ id c (same_lookup c id ready))

  -- For pre-key records that can be serialized and read back: with an engine that refuses nothing and
  -- rows whose keys can be read back, the methods on the table `pre_keys` are those of a finite map
  -- from ids to records, and change no other table.
  pub sqlite-PreKeyLaws :
      {KeyPair : Type 0} (now : ℕ) (new_pre_key : ℕ → KeyPair → PreKey)
      → PreKeyLaws IsReady
          (entries deserialize)
          others
          (pre_key_store deserialize serialize now)
          new_pre_key
  unfolding pre_key_count get_max_pre_key_id ◌>>=◌
  sqlite-PreKeyLaws now new_pre_key = record {
    save_pre_key_lem = λ c id k r. save_pre_key-Becomes now c id (new_pre_key id k) r;
    pre_key_count_lem =
        λ c r. rw (query-quiet (λ t. ok (length t.pre_keys)) c r.quiet_engine, same_length c r);
    get_max_pre_key_id_lem =
        λ c r. rw (query-quiet (λ t. ok (max_key t.pre_keys)) c r.quiet_engine, same_max c r);
    delete_pre_key_lem = λ c id r. delete_pre_key-Becomes c id r;
  }
