-- ===== src/KeyFile.antt =====
-- The file that holds the database's encryption key: src/db_encryption.rs. The paths of a disk are
-- mapped to the content of their files.
pub mod Durable
use lotl.Prelude.{
  string_eq, ℕ, suc, String, Bool, Option, none, some, List, [], ◌∷◌, ◌++◌, ◌==◌, concat, ltb,
  length, take, if◌then◌else◌,
}
use lotl.Errors.{LotlError, storage, with_texts}
use lotl.Exec.{Result, ok, err, Exec, pure, raise, lift, caught, ◌>>=◌, ◌>>◌}
use lotl.HashMap.{lookup, insert}

-- `faults` is what the system will answer to the next calls: `some n` is a failure, of a write
-- after n bytes; past its end no call fails.
pub record Disk : Type 0 where
  pub files : List (String × List ℕ)
  pub faults : List (Option ℕ)

-- `DbEncryptionError::KeyStorage(...)` as `DbConnection::new` passes it on, less the text of the
-- error that it wraps.
abbrev pub key_storage : String → LotlError
key_storage message = storage (with_texts "Key storage error: " message "")

-- A call that writes nothing.
answer : List (Option ℕ) → List (String × List ℕ) → String → Result (Unit {0}) × Disk
answer [] files message = (ok tt, record { files = files; faults = [] })
answer (none ∷ rest) files message = (ok tt, record { files = files; faults = rest })
answer (some n ∷ rest) files message =
    (err (key_storage message), record { files = files; faults = rest })

unfoldable pub system_call : String → Exec Disk (Unit {0})
unfolding answer
system_call message disk = answer disk.faults disk.files message

abbrev pub or_empty : Option (List ℕ) → List ℕ
or_empty none = []
or_empty (some bytes) = bytes

abbrev pub content_of : String → List (String × List ℕ) → List ℕ
content_of path files = or_empty (lookup path files)

-- `File::create`: the file is there and empty.
unfoldable pub create_file : String → Exec Disk (Unit {0})
unfolding system_call
create_file path = do
  system_call "Failed to create key file: "
  λ disk. (ok tt, record disk { files = insert path [] disk.files })

written : List (Option ℕ) → List (String × List ℕ) → String → List ℕ → Result (Unit {0}) × Disk
written [] files path bytes =
    (ok tt, record { files = insert path (content_of path files ++ bytes) files; faults = [] })
written (none ∷ rest) files path bytes =
    (ok tt, record { files = insert path (content_of path files ++ bytes) files; faults = rest })
written (some n ∷ rest) files path bytes = (
  err (key_storage "Failed to write key: "),
  record { files = insert path (content_of path files ++ take n bytes) files; faults = rest },
)

-- `write_all` after what the file holds
unfoldable pub write_all : String → List ℕ → Exec Disk (Unit {0})
unfolding written
write_all path bytes disk = written disk.faults disk.files path bytes

abbrev present : Option (List ℕ) → Result (List ℕ)
present none = err (key_storage "Failed to open key file: ")
present (some bytes) = ok bytes

-- `File::open`, with what is there to read
unfoldable pub open_file : String → Exec Disk (List ℕ)
unfolding system_call
open_file path = do
  system_call "Failed to open key file: "
  λ disk. (present (lookup path disk.files), disk)

-- `read_exact` of 32 bytes
unfoldable pub read_key : List ℕ → Exec Disk (List ℕ)
unfolding system_call
read_key bytes = do
  system_call "Failed to read key: "
  if ltb (length bytes) 32 then raise (key_storage "Failed to read key: ") else pure (take 32 bytes)

abbrev pub get_key_file_path : String → String
get_key_file_path db_path = concat db_path ".key"

unfoldable pub store_db_key : String → List ℕ → Exec Disk (Unit {0})
unfolding create_file write_all
store_db_key db_path key = if db_path == ":memory:" then pure tt else do
  system_call "Failed to create key directory: "
  create_file (get_key_file_path db_path)
  system_call "Failed to set key file permissions: "
  write_all (get_key_file_path db_path) key

unfoldable pub retrieve_db_key : String → Exec Disk (List ℕ)
unfolding open_file read_key
retrieve_db_key db_path =
    if db_path == ":memory:"
    then raise (key_storage "In-memory databases do not have persistent keys")
    else do file ← open_file (get_key_file_path db_path); read_key file

-- the match on the retrieved key; `key` is what `generate_db_key` draws
unfoldable pub key_or_new : String → List ℕ → Result (List ℕ) → Exec Disk (List ℕ)
unfolding store_db_key
key_or_new db_path key (ok stored) = pure stored
key_or_new db_path key (err e) = do store_db_key db_path key; pure key

unfoldable pub get_or_create_db_key : String → List ℕ → Exec Disk (List ℕ)
unfolding retrieve_db_key key_or_new
get_or_create_db_key db_path key = do
  stored ← caught (retrieve_db_key db_path)
  key_or_new db_path key stored
