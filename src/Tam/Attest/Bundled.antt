-- ===== src/Tam/Attest/Bundled.antt =====
-- The claims of an agent in an SGX enclave (internal/tam/sgx_quote_bundle.go).
use attes_tam.Base.{
  ◌≤◌, ◌≡◌, refl, ap, Bool, true, false, Option, none, some, [], ◌∷◌, Bytes, bytes_eq, bytes_eq→eq,
  length, take, drop, ltb, arith, if◌then◌else◌,
}
use attes_tam.Model.{Error, other, attestation_failed}
use attes_tam.Exec.{Result, ok, err, World, lift}
use attes_tam.Exec.Gives.{Gives, Gives-bind, Gives-if, Gives-weaken}
use attes_tam.Rats.Quote
use attes_tam.Rats.Quote.{Outcome, bytes_read, refused, extract_quote_report_data}
use attes_tam.Rats.Backend.{is_intel_qvl, verifier_backend_for_attestation_payload_format}
use attes_tam.Rats.Claims.{ProcessedAttestation}
use attes_tam.Tam.Library.{Library, Tam}
use attes_tam.Tam.Bundle.{
  SgxBundle, checked_bundle, padded, is_bound, decode_sgx_quote3_teep_bundle,
  verify_sgx_quote_report_data_binding, with_key, populate_from_sgx,
}
use attes_tam.Tam.Attest.{or_error, attested_claims}

-- The nonce that stands after the key, else the one there was.
abbrev pub nonce_after : Bytes → Option Bytes → Option Bytes
nonce_after [] old = old
nonce_after (n ∷ nonce) old = some (n ∷ nonce)

-- The payload is a bundle whose quote carries the hash of the bundle's raw report data, padded, and
-- the claims' key is the one whose coordinates are the first 64 bytes of these.
pub record IsBundled {Key : Type 0} (lib : Library Key) (payload : Bytes)
    (before after : ProcessedAttestation Key) : Type 0 where
  pub quote : Bytes
  pub raw : Bytes
  pub is_decoded : lib.decode_bundle payload ≡ some (quote, raw)
  pub is_quoted : extract_quote_report_data quote ≡ bytes_read (padded (lib.sha384 raw))
  pub key : Key
  pub is_long : 64 ≤ length raw
  pub is_built : lib.new_key_ec2 (take 32 raw) (take 32 (drop 32 raw)) ≡ some key
  pub is_key : after.attestation_key ≡ some key
  pub is_nonce : after.attestation_nonce ≡ nonce_after (drop 64 raw) before.attestation_nonce

or_error-ok : {A : Type 0} (e : Error) (r : Result A) (a : A) → or_error e r ≡ ok a → r ≡ ok a
or_error-ok e (ok b) a h = h
or_error-ok e (err x) a h = cc

lift-Gives :
    {A C : Type 0} (r : Result A)
    → Gives (λ _. C) (lift (or_error attestation_failed r)) (λ a _. C × (r ≡ ok a))
unfolding lift
lift-Gives r = record { give = λ w a h e. (h, or_error-ok attestation_failed r a e) }

checked_bundle-ok :
    (o : Option (Bytes × Bytes)) (b : SgxBundle)
    → checked_bundle o ≡ ok b
    → o ≡ some (b.quote, b.raw_report_data)
checked_bundle-ok none b h = cc
checked_bundle-ok (some ([], _)) b h = cc
checked_bundle-ok (some (_ ∷ _, [])) b h = cc
checked_bundle-ok (some (q ∷ quote, r ∷ raw)) b h = ap pair h
  where
    pair : Result SgxBundle → Option (Bytes × Bytes)
    pair (ok c) = some (c.quote, c.raw_report_data)
    pair (err _) = none

is_bound-ok :
    (o : Outcome) (expected : Bytes) → is_bound o expected ≡ ok tt → o ≡ bytes_read expected
is_bound-ok (bytes_read actual) expected h =
    ap bytes_read (bytes_eq→eq actual expected (accepted (bytes_eq actual expected) h))
  where
    accepted : (b : Bool) → (if b then ok tt else err other) ≡ ok (tt {0}) → b ≡ true
    accepted true e = refl
    accepted false e = cc
is_bound-ok refused expected h = cc
is_bound-ok Quote.panic expected h = cc

module _ {Key : Type 0} (lib : Library Key) where
  decoded :
      (payload : Bytes) (b : SgxBundle)
      → decode_sgx_quote3_teep_bundle lib payload ≡ ok b
      → lib.decode_bundle payload ≡ some (b.quote, b.raw_report_data)
  unfolding decode_sgx_quote3_teep_bundle
  decoded [] b h = cc
  decoded (x ∷ payload) b h = checked_bundle-ok (lib.decode_bundle (x ∷ payload)) b h

  quoted :
      (quote raw : Bytes)
      → verify_sgx_quote_report_data_binding lib quote raw ≡ ok tt
      → extract_quote_report_data quote ≡ bytes_read (padded (lib.sha384 raw))
  unfolding verify_sgx_quote_report_data_binding
  quoted quote [] h = cc
  quoted quote (r ∷ raw) h = is_bound-ok (extract_quote_report_data quote) _ h

  -- What the key and the rest of the raw report data make of the claims.
  record IsKeyed (built : Option Key) (rest : Bytes) (before after : ProcessedAttestation Key)
      : Type 0 where
    key : Key
    is_built : built ≡ some key
    is_key : after.attestation_key ≡ some key
    is_nonce : after.attestation_nonce ≡ nonce_after rest before.attestation_nonce

  with_key-ok :
      (built : Option Key) (rest : Bytes) (before after : ProcessedAttestation Key)
      → with_key lib built rest before ≡ ok after
      → IsKeyed built rest before after
  with_key-ok none rest before after h = cc
  with_key-ok (some k) [] before after h = record {
    key = k;
    is_built = refl;
    is_key = cc;
    is_nonce = cc;
  }
  with_key-ok (some k) (n ∷ nonce) before after h = record {
    key = k;
    is_built = refl;
    is_key = cc;
    is_nonce = cc;
  }

  populated :
      (raw : Bytes) (before after : ProcessedAttestation Key)
      → populate_from_sgx lib raw before ≡ ok after
      → (64 ≤ length raw)
        × IsKeyed (lib.new_key_ec2 (take 32 raw) (take 32 (drop 32 raw))) (drop 64 raw) before after
  unfolding populate_from_sgx
  populated raw before after h = long (ltb (length raw) 64) refl h
    where
      long :
          (b : Bool)
          → ltb (length raw) 64 ≡ b
          → (if b
              then err other
              else with_key lib
                  (lib.new_key_ec2 (take 32 raw) (take 32 (drop 32 raw)))
                  (drop 64 raw)
                  before)
            ≡ ok after
          → (64 ≤ length raw)
            × IsKeyed
                (lib.new_key_ec2 (take 32 raw) (take 32 (drop 32 raw)))
                (drop 64 raw)
                before
                after
      long true e k = cc
      long false e k = (ground arith, with_key-ok _ _ before after k)

  bundled :
      (payload : Bytes) (b : SgxBundle) (before after : ProcessedAttestation Key)
      → decode_sgx_quote3_teep_bundle lib payload ≡ ok b
      → verify_sgx_quote_report_data_binding lib b.quote b.raw_report_data ≡ ok tt
      → populate_from_sgx lib b.raw_report_data before ≡ ok after
      → IsBundled lib payload before after
  bundled payload b before after d v p =
      let (long, keyed) = populated b.raw_report_data before after p in
      record {
        quote = b.quote;
        raw = b.raw_report_data;
        is_decoded = decoded payload b d;
        is_quoted = quoted b.quote b.raw_report_data v;
        key = keyed.key;
        is_long = long;
        is_built = keyed.is_built;
        is_key = keyed.is_key;
        is_nonce = keyed.is_nonce;
      }

  claims-Gives :
      (tam : Tam Key) (format payload : Bytes) (before : ProcessedAttestation Key)
      → is_intel_qvl (verifier_backend_for_attestation_payload_format format) ≡ true
      → Gives
          (λ _. Unit {0})
          (attested_claims lib tam format payload before)
          (λ after _. IsBundled lib payload before after)
  unfolding attested_claims
  claims-Gives tam format payload before intel =
      Gives-if (is_intel_qvl (verifier_backend_for_attestation_payload_format format)) _ _
        (λ _. Gives-bind _ _ _ (lift-Gives (decode_sgx_quote3_teep_bundle lib payload)) λ b.
          Gives-bind _ _ _ (lift-Gives _) λ _.
            Gives-weaken _ (lift-Gives _)
              λ after d h. bundled payload b before after h.0.0.1 h.0.1 h.1)
        (λ no. cc)

-- If the payload of an Intel QVL format adds its claims to an affirmed result, then it is a bundle
-- whose quote carries, padded to 64 bytes, the SHA-384 hash of the raw report data of the bundle;
-- that has at least 64 bytes, the attested key is the one built from these, and the nonce is what
-- follows them, or that of the affirmed result if nothing does.
pub attested_claims-IsBundled :
    {Key : Type 0} (lib : Library Key) (tam : Tam Key) (format payload : Bytes)
    (before after : ProcessedAttestation Key) (w : World)
    → is_intel_qvl (verifier_backend_for_attestation_payload_format format) ≡ true
    → (attested_claims lib tam format payload before w).0 ≡ ok after
    → IsBundled lib payload before after
attested_claims-IsBundled lib tam format payload before after w intel e =
    (claims-Gives lib tam format payload before intel).give w after tt e
