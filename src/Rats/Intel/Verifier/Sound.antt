-- ===== src/Rats/Intel/Verifier/Sound.antt =====
-- What an affirming result of the verifier rests on (internal/infra/rats/intel_qvl_verifier.go).
use attes_tam.Base.{◌≡◌, refl, ap, ◌∙◌, arith, Bool, true, false, some, [], ◌∷◌, Bytes}
use attes_tam.Exec.{ok}
use attes_tam.Text.{text}
use attes_tam.Rats.Qvl.{result_to_ear_status}
use attes_tam.Rats.Qvl.Affirming.{IsAcceptable, affirming_iff_IsAcceptable}
use attes_tam.Rats.Claims.{ProcessedAttestation}
use attes_tam.Rats.Results.{required, >>=-eq-ok, required-eq-ok}
use attes_tam.Exec.{ok-injective}
use attes_tam.Rats.Intel.Collateral.{Collateral}
use attes_tam.Rats.Intel.Library.{NativeResult, IntelLibrary}
use attes_tam.Rats.Intel.Cache.{Disk}
use attes_tam.Rats.Intel.Verifier.{
  IntelVerifier, Clock, native_collateral, quote_collateral, attestation_of, verified, process,
}

-- Intel's library has verified the quote with the verifier's collateral, with an acceptable result
-- and no expired collateral.
pub record IsVerified (lib : IntelLibrary) (v : IntelVerifier) (quote : Bytes) (clock : Clock)
    (disk : Disk) : Type 0 where
  pub collateral : Collateral
  pub is_collateral : (quote_collateral lib v quote clock disk).0 ≡ ok collateral
  pub native : NativeResult
  pub is_native :
      lib.verify_quote clock.verified_at quote (native_collateral collateral) ≡ some native
  pub is_current : native.collateral_expiration_status ≡ 0
  pub is_acceptable : IsAcceptable native.verification_result

affirming_status : (b : Bool) → result_to_ear_status b ≡ text "affirming" → b ≡ true
affirming_status true h = refl
affirming_status false h = ground arith

module _ {Key : Type 0} (lib : IntelLibrary) where
  -- What the end of Process makes of the collateral.
  verified-IsVerified :
      (v : IntelVerifier) (quote : Bytes) (clock : Clock) (disk : Disk)
      (result : ProcessedAttestation Key)
      → verified lib clock.verified_at quote (quote_collateral lib v quote clock disk).0 ≡ ok result
      → result.ear_status ≡ text "affirming"
      → IsVerified lib v quote clock disk
  unfolding verified
  verified-IsVerified v quote clock disk result h affirming =
      let (c, (given, rest)) = >>=-eq-ok (quote_collateral lib v quote clock disk).0 _ result h in
      let (r, (native, last)) =
        >>=-eq-ok (required (lib.verify_quote clock.verified_at quote (native_collateral c))) _
          result rest in
      let status =
        ap (λ x. x.ear_status) (ok-injective (attestation_of lib r) result last) ∙ affirming in
      let (current, acceptable) =
        (affirming_iff_IsAcceptable r.verification_result r.collateral_expiration_status).0
          (affirming_status _ status) in
      record {
        collateral = c;
        is_collateral = given;
        native = r;
        is_native =
            required-eq-ok (lib.verify_quote clock.verified_at quote (native_collateral c)) r
              native;
        is_current = current;
        is_acceptable = acceptable;
      }

  -- If Process affirms a quote, then Intel's library has verified that quote with the collateral
  -- of the cache or the service, no collateral had expired, and its result is acceptable.
  pub process-IsVerified :
      (v : IntelVerifier) (quote : Bytes) (clock : Clock) (disk : Disk)
      (result : ProcessedAttestation Key)
      → (process lib v quote clock disk).0 ≡ ok result
      → result.ear_status ≡ text "affirming"
      → IsVerified lib v quote clock disk
  unfolding process
  process-IsVerified v [] clock disk result h affirming = cc
  process-IsVerified v (b ∷ quote) clock disk result h affirming =
      verified-IsVerified v (b ∷ quote) clock disk result h affirming
