-- ===== src/Sqlite/KeyTable.antt =====
-- The methods that `SqliteSignedPreKeyStore` and `SqliteKyberPreKeyStore` of src/signal_storage.rs
-- have in common: the same statements, on one table or the other.
pub mod Laws
use lotl.Prelude.{
  number_eq, ℕ, ◌+◌, ◌*◌, ◌/◌, ◌≡◌, Bool, false, Option, none, some, List, [], length, ltb, String,
}
use lotl.Errors.{
  SignalProtocolError, invalid_state, LotlError, signal_protocol, database, query_returned_no_rows,
}
use lotl.Exec.{Result, ok, err, Exec, pure, raise, lift, caught, map_err, unwrap_or, ◌>>=◌, ◌>>◌}
use lotl.Sql.{Connection, statement}
use lotl.HashMap.{lookup, insert, remove, max_key, keys_where}
use lotl.Sqlite.Tables.{KeyRow}

-- What a store asks of its record type: libsignal's accessors.
pub record RecordFormat (R : Type 0) : Type 0 where
  pub serialize : R → Result (List ℕ)
  pub deserialize : List ℕ → Result R
  pub timestamp : R → Result ℕ
  pub signature : R → Result (List ℕ)

-- One table of a database.
pub record Table (T Row : Type 0) : Type 0 where
  pub rows : T → List (ℕ × Row)
  pub set_rows : List (ℕ × Row) → T → T
  pub rows-set_rows : (l : List (ℕ × Row)) (t : T) → rows (set_rows l t) ≡ l

-- `SignalProtocolError::InvalidState("storage", ...)`, less the text of the error that it wraps
abbrev pub storage_error : LotlError → LotlError
storage_error e = signal_protocol (invalid_state "storage")

abbrev pub row_or_none {ℓ} : {A : Type ℓ} → Option A → Result A
row_or_none none = err (database query_returned_no_rows)
row_or_none (some a) = ok a

module _ {T R : Type 0} (table : Table T KeyRow) (format : RecordFormat R)
    (missing : SignalProtocolError) where
  -- the `match` on the row
  unfoldable pub decoded : Result KeyRow → Exec (Connection T) R
  decoded (ok row) = map_err storage_error (lift (format.deserialize row.key_data))
  decoded (err (database query_returned_no_rows)) = raise (signal_protocol missing)
  decoded (err e) = raise (storage_error e)

  -- SELECT key_data ... WHERE id = ?
  unfoldable pub get_key : ℕ → Exec (Connection T) R
  unfolding decoded
  get_key id = do
    result ← caught (statement (λ t. (row_or_none (lookup id (table.rows t)), t)))
    decoded result

  -- INSERT OR REPLACE ... VALUES (?, ?, ?, ?, ?, FALSE)
  unfoldable pub save_key : ℕ → R → Exec (Connection T) (Unit {0})
  save_key id record' = do
    serialized ← map_err storage_error (lift (format.serialize record'))
    millis ← map_err storage_error (lift (format.timestamp record'))
    signature ← map_err storage_error (lift (format.signature record'))
    map_err storage_error (
        statement (λ t. (
          ok tt,
          table.set_rows
              (insert id
                (record {
                  key_data = serialized;
                  signature = signature;
                  created_at = millis / 1000;
                  expires_at = millis / 1000 + 30 * 24 * 60 * 60;
                  is_current = false;
                })
                (table.rows t))
              t,
        )))

  -- SELECT COUNT(*), `.unwrap_or(0)`
  unfoldable pub key_count : Exec (Connection T) ℕ
  key_count = unwrap_or 0 (statement (λ t. (ok (length (table.rows t)), t)))

  -- DELETE FROM ..., all of it
  unfoldable pub clear_all_keys : Exec (Connection T) (Unit {0})
  clear_all_keys = statement (λ t. (ok tt, table.set_rows [] t))

  -- SELECT MAX(id), `.ok()`
  unfoldable pub get_max_key_id : Exec (Connection T) (Option ℕ)
  get_max_key_id = unwrap_or none (statement (λ t. (ok (max_key (table.rows t)), t)))

  unfoldable pub delete_key : ℕ → Exec (Connection T) (Unit {0})
  delete_key id = statement (λ t. (ok tt, table.set_rows (remove id (table.rows t)) t))

  -- SELECT id ... WHERE created_at < ?, in no stated order
  unfoldable pub get_keys_older_than : ℕ → Exec (Connection T) (List ℕ)
  get_keys_older_than timestamp_millis = statement (λ t.
      (ok (keys_where (λ row. ltb row.created_at (timestamp_millis / 1000)) (table.rows t)), t))
