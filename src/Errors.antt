-- ===== src/Errors.antt =====
-- The errors: src/error.rs, and the errors of rusqlite and libsignal that it wraps.
use lotl.Prelude.{ℕ, String}

-- The cases of `rusqlite::Error` that the code tells apart; the engine's other errors have a code.
pub data SqliteError : Type 0 where
  query_returned_no_rows : SqliteError
  constraint_violation : SqliteError
  sqlite_failure : ℕ → SqliteError

-- The cases of `SignalProtocolError` that the stores raise; libsignal's others have a code.
pub data SignalProtocolError : Type 0 where
  invalid_state : String → SignalProtocolError
  invalid_pre_key_id : SignalProtocolError
  invalid_signed_pre_key_id : SignalProtocolError
  invalid_kyber_pre_key_id : SignalProtocolError
  other_signal_error : ℕ → SignalProtocolError

mutual
  -- `LotlError`; the errors of bincode, io, hex and the like are not told apart. A `Box<dyn Error>`
  -- is the `LotlError` that holds the boxed error.
  pub data LotlError : Type 0 where
    storage : Message → LotlError
    signal_protocol : SignalProtocolError → LotlError
    database : SqliteError → LotlError
    serialization : LotlError
    crypto : Message → LotlError
    invalid_fingerprint : Message → LotlError
    invalid_config : Message → LotlError
    key_not_found : Message → LotlError
    contact_not_found : Message → LotlError
    session_not_found : Message → LotlError
    io : LotlError
    utf8 : LotlError
    hex_decode : LotlError
    base64_decode : LotlError
    json : LotlError
    -- no variant of the source: the call panicked, with this text
    panicked : String → LotlError

  -- The payload of an error: a literal, a literal with a number or texts put in, or a shown error.
  pub data Message : Type 0 where
    text : String → Message
    with_number : String → ℕ → Message
    with_texts : String → String → String → Message
    shown : LotlError → Message
    joined : Message → Message → Message
