-- ===== src/StorageTrait/Container.antt =====
-- What a whole container promises: three finite maps side by side.
use lotl.Prelude.{ℕ, ◌≡◌, ap, Bool, List}
use lotl.Errors.{LotlError, signal_protocol, invalid_signed_pre_key_id, invalid_kyber_pre_key_id}
use lotl.Exec.{Result}
use lotl.Exec.Ends.{Ends}
use lotl.StorageTrait.{RotatingStore, PreKeyStore, SignalStorageContainer}
use lotl.StorageTrait.Laws.{Becomes, RotatingLaws, PreKeyLaws}

-- What a write to one store leaves alone: the two other stores, and the rest.
abbrev pub beside {ℓ} : {S A B O : Type ℓ} → (S → A) → (S → B) → (S → O) → S → A × B × O
beside first second others s = (first s, second s, others s)

-- `signed_expired` and `kyber_expired` say which records are before a cutoff. A key that is
-- missing is an invalid id. The stores share one notion of ready; a write to one leaves the
-- others and the rest alone.
pub record ContainerLaws {S Signed Kyber PreKey KeyPair O : Type 0} (IsReady : S → Type 0)
    (signed_keys : S → List (ℕ × Signed)) (kyber_keys : S → List (ℕ × Kyber))
    (pre_keys : S → List (ℕ × PreKey)) (others : S → O)
    (storage : SignalStorageContainer S Signed Kyber PreKey) (new_pre_key : ℕ → KeyPair → PreKey)
    (signed_expired : ℕ → Signed → Bool) (kyber_expired : ℕ → Kyber → Bool) : Type 0 where
  pub signed_laws :
      RotatingLaws IsReady signed_keys
        (beside kyber_keys pre_keys others)
        storage.signed_pre_key_store
        (signal_protocol invalid_signed_pre_key_id)
        signed_expired
  pub kyber_laws :
      RotatingLaws IsReady kyber_keys
        (beside signed_keys pre_keys others)
        storage.kyber_pre_key_store
        (signal_protocol invalid_kyber_pre_key_id)
        kyber_expired
  pub pre_key_laws :
      PreKeyLaws IsReady pre_keys
        (beside signed_keys kyber_keys others)
        storage.pre_key_store
        new_pre_key

-- Laws under another reading of the state: an equivalent notion of ready, and less of the rest.
module _ {S R O P : Type 0} {IsReady IsOpen : S → Type 0} {entries : S → List (ℕ × R)}
    {others : S → O} (ready : (s : S) → IsOpen s → IsReady s)
    (open' : (s : S) → IsReady s → IsOpen s) (view : O → P) where
  Becomes-viewed :
      (s : S) (m : List (ℕ × R)) (o : Result (Unit {0}) × S)
      → Becomes IsReady entries others s m o
      → Becomes IsOpen entries (λ t. view (others t)) s m o
  Becomes-viewed s m o b = record {
    succeeds = b.succeeds;
    ready = open' _ b.ready;
    content = b.content;
    frame = ap view b.frame;
  }

  pub RotatingLaws-viewed :
      {st : RotatingStore S R} {missing : LotlError} {expired : ℕ → R → Bool}
      → RotatingLaws IsReady entries others st missing expired
      → RotatingLaws IsOpen entries (λ t. view (others t)) st missing expired
  RotatingLaws-viewed laws = record {
    get_key_lem = λ s id r. laws.get_key_lem s id (ready s r);
    save_key_lem = λ s id v r. Becomes-viewed s _ _ (laws.save_key_lem s id v (ready s r));
    key_count_lem = λ s r. laws.key_count_lem s (ready s r);
    get_max_key_id_lem = λ s r. laws.get_max_key_id_lem s (ready s r);
    delete_key_lem = λ s id r. Becomes-viewed s _ _ (laws.delete_key_lem s id (ready s r));
    get_keys_older_than_lem = λ s t r. laws.get_keys_older_than_lem s t (ready s r);
  }

  pub PreKeyLaws-viewed :
      {KeyPair : Type 0} {st : PreKeyStore S R} {new_pre_key : ℕ → KeyPair → R}
      → PreKeyLaws IsReady entries others st new_pre_key
      → PreKeyLaws IsOpen entries (λ t. view (others t)) st new_pre_key
  PreKeyLaws-viewed laws = record {
    save_pre_key_lem = λ s id k r. Becomes-viewed s _ _ (laws.save_pre_key_lem s id k (ready s r));
    pre_key_count_lem = λ s r. laws.pre_key_count_lem s (ready s r);
    get_max_pre_key_id_lem = λ s r. laws.get_max_pre_key_id_lem s (ready s r);
    delete_pre_key_lem = λ s id r. Becomes-viewed s _ _ (laws.delete_pre_key_lem s id (ready s r));
  }

pub Becomes-Ends :
    {S R O : Type 0} {IsReady : S → Type 0} {entries : S → List (ℕ × R)} {others : S → O} {s : S}
    {m : List (ℕ × R)} (o : Result (Unit {0}) × S)
    → Becomes IsReady entries others s m o
    → Ends (λ a t. IsReady t × (entries t ≡ m) × (others t ≡ others s)) o
Becomes-Ends o b = record {
  value = tt;
  succeeds = b.succeeds;
  after = (b.ready, b.content, b.frame);
}
