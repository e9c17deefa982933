-- ===== src/Api/Laws.antt =====
-- The laws that libsignal's records keep, and the database of an instance as a key container.
use lotl.Prelude.{ℕ, ◌≡◌, Eq, List}
use lotl.Exec.{ok}
use lotl.Sql.{Connection}
use lotl.Libsignal.{SignedRecordLaws, SignedRecordTotal}
use lotl.StorageTrait.Container.{ContainerLaws}
use lotl.StorageTrait.Laws.{is_seconds_before}
use lotl.Sqlite.Tables.{SignalTables}
use lotl.Sqlite.KeyTable.Laws.{FormatLaws}
use lotl.Sqlite.PreKeys.Laws.{BytesLaws}
use lotl.Sqlite.Container.{IsOpen, signed_keys, kyber_keys, pre_keys, rest, sqlite-ContainerLaws}
use lotl.Api.State.{Signal}
use lotl.Api.Identity.{storage_at}

-- What the code relies on: libsignal reads back what it writes.
pub record SignalLaws
    {IdentityKey IdentityKeyPair Signed Kyber PreKey KeyPair KemKeyPair Signature : Type 0}
    (signal : Signal IdentityKey IdentityKeyPair Signed Kyber PreKey KeyPair KemKeyPair Signature)
    : Type 0 where
  pub pair_from_lem :
      (p : IdentityKeyPair) → signal.identities.pair_from (signal.identities.pair_bytes p) ≡ ok p
  pub signed_laws : SignedRecordLaws signal.signed
  pub signed_total : SignedRecordTotal signal.signed
  pub signed_format_laws : FormatLaws signal.signed_format
  pub kyber_format_laws : FormatLaws signal.kyber_format
  pub pre_key_laws : BytesLaws signal.pre_key_from signal.pre_key_bytes

module _ {IdentityKey IdentityKeyPair Signed Kyber PreKey KeyPair KemKeyPair Signature : Type 0}
    ⦃key_eq : Eq IdentityKey⦄
    (signal : Signal IdentityKey IdentityKeyPair Signed Kyber PreKey KeyPair KemKeyPair Signature)
    (laws : SignalLaws signal) where
  abbrev pub IsOpenFor : Connection SignalTables → Type 0
  IsOpenFor =
      IsOpen signal.signed_format signal.kyber_format signal.pre_key_from signal.pre_key_bytes
        laws.signed_format_laws laws.kyber_format_laws laws.pre_key_laws

  abbrev pub signed_of : Connection SignalTables → List (ℕ × Signed)
  signed_of =
      signed_keys signal.signed_format signal.kyber_format signal.pre_key_from signal.pre_key_bytes

  abbrev pub kyber_of : Connection SignalTables → List (ℕ × Kyber)
  kyber_of =
      kyber_keys signal.signed_format signal.kyber_format signal.pre_key_from signal.pre_key_bytes

  abbrev pub pre_keys_of : Connection SignalTables → List (ℕ × PreKey)
  pre_keys_of =
      pre_keys signal.signed_format signal.kyber_format signal.pre_key_from signal.pre_key_bytes

  abbrev pub beside_keys : Connection SignalTables → SignalTables
  beside_keys =
      rest signal.signed_format signal.kyber_format signal.pre_key_from signal.pre_key_bytes

  abbrev pub container_laws :
      (now : ℕ)
      → ContainerLaws IsOpenFor signed_of kyber_of pre_keys_of beside_keys
          (storage_at signal now)
          signal.new_pre_key
          (is_seconds_before signal.signed_format.timestamp)
          (is_seconds_before signal.kyber_format.timestamp)
  container_laws now =
      sqlite-ContainerLaws signal.signed_format signal.kyber_format signal.pre_key_from
        signal.pre_key_bytes laws.signed_format_laws laws.kyber_format_laws laws.pre_key_laws now
        signal.new_pre_key
