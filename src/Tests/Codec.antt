-- ===== src/Tests/Codec.antt =====
-- A codec of bundles for the runs: numbers first, then byte strings with their lengths in front.
use lotl.Prelude.{
  ℕ, zero, suc, ◌≡◌, refl, ap, sym, ◌∙◌, String, List, [], ◌∷◌, ◌++◌, length, take, drop,
}
use lotl.Errors.{serialization}
use lotl.Exec.{Result, ok, err}
use lotl.Api.Bundles.{SerializableBundle, BundleFormat}
use lotl.Api.Bundles.Current.{BundleLaws}
use lotl.Tests.Keys.{Key}

pub framed : List (List ℕ) → List ℕ
framed [] = []
framed (l ∷ ls) = length l ∷ l ++ framed ls

pub unframed : ℕ → List ℕ → List (List ℕ)
unframed zero bytes = []
unframed (suc n) [] = []
unframed (suc n) (k ∷ bytes) = take k bytes ∷ unframed n (drop k bytes)

take-length-append : (l m : List ℕ) → take (length l) (l ++ m) ≡ l
take-length-append [] m = refl
take-length-append (x ∷ l) m = ap (λ k. x ∷ k) (take-length-append l m)

drop-length-append : (l m : List ℕ) → drop (length l) (l ++ m) ≡ m
drop-length-append [] m = refl
drop-length-append (x ∷ l) m = drop-length-append l m

unframed-framed : (ls : List (List ℕ)) → unframed (length ls) (framed ls) ≡ ls
unfolding framed unframed
unframed-framed [] = refl
unframed-framed (l ∷ ls) =
    rw (take-length-append l (framed ls), drop-length-append l (framed ls), unframed-framed ls)

abbrev version : String
version = "0.1.0"

abbrev of_fields : ℕ → ℕ → ℕ → ℕ → ℕ → List (List ℕ) → Result SerializableBundle
of_fields r d p s k (a ∷ b ∷ c ∷ i ∷ e ∷ f ∷ []) = ok (record {
  version = version;
  registration_id = r;
  device_id = d;
  pre_key_id = p;
  pre_key_public = a;
  signed_pre_key_id = s;
  signed_pre_key_public = b;
  signed_pre_key_signature = c;
  identity_key = i;
  kyber_pre_key_id = k;
  kyber_pre_key_public = e;
  kyber_pre_key_signature = f;
})
of_fields r d p s k _ = err serialization

abbrev fields : SerializableBundle → List (List ℕ)
fields b =
    b.pre_key_public ∷ b.signed_pre_key_public ∷ b.signed_pre_key_signature ∷ b.identity_key
    ∷ b.kyber_pre_key_public ∷ b.kyber_pre_key_signature ∷ []

abbrev bytes_of : SerializableBundle → List ℕ
bytes_of b =
    b.registration_id
    ∷ b.device_id
    ∷ b.pre_key_id
    ∷ b.signed_pre_key_id
    ∷ b.kyber_pre_key_id
    ∷ framed (fields b)

abbrev bundle_of : List ℕ → Result SerializableBundle
bundle_of (r ∷ d ∷ p ∷ s ∷ k ∷ rest) = of_fields r d p s k (unframed 6 rest)
bundle_of _ = err serialization

abbrev pub bundle_format : BundleFormat Key Key ℕ
bundle_format = record {
  pre_key_public = λ k. ok (k ∷ []);
  signed_public = λ r. ok (r.0 ∷ []);
  kyber_public = λ r. ok (r.0 ∷ []);
  to_bytes = λ b. ok (bytes_of b);
  from_bytes = bundle_of;
  package_version = version;
}

pub bundle_of-bytes_of :
    (b : SerializableBundle) → b.version ≡ version → bundle_of (bytes_of b) ≡ ok b
bundle_of-bytes_of b e =
    ap (of_fields b.registration_id b.device_id b.pre_key_id b.signed_pre_key_id b.kyber_pre_key_id)
      (unframed-framed (fields b))
    ∙ λ i. ok (record b { version = sym e i })

abbrev pub bundle_laws : BundleLaws bundle_format
bundle_laws = record {
  pre_key_public_lem = λ k. (k ∷ [], refl);
  signed_public_lem = λ r. (r.0 ∷ [], refl);
  kyber_public_lem = λ r. (r.0 ∷ [], refl);
  bytes = bytes_of;
  to_bytes_lem = λ b. refl;
  from_bytes_lem = bundle_of-bytes_of;
}
