-- ===== src/Tam/Attest.antt =====
-- Remote attestation of an agent (internal/tam/tam.go).
pub mod Bundled
pub mod Sound
use attes_tam.Base.{
  ℕ, Bool, true, false, not, ◌||◌, ◌&&◌, Option, none, some, [], ◌∷◌, Bytes, if◌then◌else◌,
}
use attes_tam.Model.{
  Error, fatal, not_authenticated, attestation_failed, verifier_not_configured,
  attestation_payload_not_found,
}
use attes_tam.Exec.{Result, ok, err, Exec, pure, raise, lift, attempt, if_some, if_ok, ◌>>=◌, ◌>>◌}
use attes_tam.Text.{text, equal_fold, has_prefix, to_lower, trim_space}
use attes_tam.Teep.Message.{Message}
use attes_tam.Rats.Backend.{Backend, is_intel_qvl, verifier_backend_for_attestation_payload_format}
use attes_tam.Rats.Claims.{ProcessedAttestation, populate_from_eat}
use attes_tam.Tam.Library.{Sign1, Library, Verifier, Tam}
use attes_tam.Tam.Bundle.{
  SgxBundle, decode_sgx_quote3_teep_bundle, verify_sgx_quote_report_data_binding, populate_from_sgx,
}
use attes_tam.Tam.Keyring.{set_teep_agent_key}
use attes_tam.Tam.Sent.{search_sent_message_with_challenge}
use attes_tam.Tam.Authenticate.{verify_cose_signature}

abbrev pub or_empty : Option Bytes → Bytes
or_empty none = []
or_empty (some b) = b

-- strings.EqualFold(status, "affirming")
unfoldable pub is_affirming : Bytes → Bool
unfolding equal_fold
is_affirming status = equal_fold status (text "affirming")

unfoldable pub requires_attested_agent_key : Bytes → Bool
unfolding has_prefix to_lower trim_space
requires_attested_agent_key format =
    has_prefix (to_lower (trim_space format)) (text "application/eat")

-- A `Result` whose every error becomes `e`.
abbrev pub or_error : {A : Type 0} → Error → Result A → Result A
or_error e (ok a) = ok a
or_error e (err _) = err e

abbrev pub quote_of : Result SgxBundle → Result Bytes
quote_of (ok b) = ok b.quote
quote_of (err e) = err e

module _ {Key : Type 0} (lib : Library Key) (tam : Tam Key) where
  -- the verifier of selectVerifier; the format has been made a text
  abbrev pub verifier_from :
      Option (Bytes → Result (Option (Verifier Key))) → Bytes → Result (Option (Verifier Key))
  verifier_from none format = ok tam.verifier
  verifier_from (some resolve) format = resolve format

  abbrev pub verifier_payload : Backend → Bytes → Result Bytes
  verifier_payload Backend.veraison payload = ok payload
  verifier_payload Backend.intel_qvl payload =
      quote_of (or_error attestation_failed (decode_sgx_quote3_teep_bundle lib payload))

  -- submitAttestationPayload; its backend is that of the format
  unfoldable pub submit_attestation_payload : Bytes → Bytes → Exec (ProcessedAttestation Key)
  submit_attestation_payload format payload = do
    selected ← lift (verifier_from tam.resolve_verifier format)
    if_some selected
        (λ process. do
          evidence ←
              lift
                (verifier_payload (verifier_backend_for_attestation_payload_format format) payload)
          if_some (process evidence) pure (raise attestation_failed))
        (raise verifier_not_configured)

  -- PopulateAttestedClaimsFromSign1
  abbrev pub populate_from_sign1 :
      Option Sign1 → ProcessedAttestation Key → Result (ProcessedAttestation Key)
  populate_from_sign1 none result = err not_authenticated
  populate_from_sign1 (some s) result =
      or_error not_authenticated (populate_from_eat (lib.decode_eat s.payload) result)

  -- The claims that an affirmed payload adds to the result, by its backend and format.
  unfoldable pub attested_claims :
      Bytes → Bytes → ProcessedAttestation Key → Exec (ProcessedAttestation Key)
  attested_claims format payload result =
      if is_intel_qvl (verifier_backend_for_attestation_payload_format format)
      then (do
        bundle ← lift (or_error attestation_failed (decode_sgx_quote3_teep_bundle lib payload))
        _ ← lift (
            or_error attestation_failed
              (verify_sgx_quote_report_data_binding lib bundle.quote bundle.raw_report_data))
        lift (or_error attestation_failed (populate_from_sgx lib bundle.raw_report_data result)))
      else if requires_attested_agent_key format
      then lift (populate_from_sign1 (lib.decode_sign1 payload) result)
      else pure result

  -- The results of verifyAttestationPayload.
  pub record Verified : Type 0 where
    pub result : ProcessedAttestation Key
    pub agent_kid : Option Bytes
    pub sent : Option Message

  -- The body is signed with the attested key, and that is stored: the agent is known by it.
  unfoldable pub adopt_key : Bytes → Bytes → ProcessedAttestation Key → Exec (Option Bytes)
  adopt_key body format result =
      if not (requires_attested_agent_key format)
        && not (is_intel_qvl (verifier_backend_for_attestation_payload_format format))
      then raise not_authenticated
      else if_some result.attestation_key
          (λ key.
            if verify_cose_signature lib body key
            then (do
              stored ← attempt (set_teep_agent_key lib (some key) result.attestation_ueid)
              if_ok stored (λ _. pure (lib.thumbprint key)) (λ _. raise fatal))
            else raise not_authenticated)
          (raise not_authenticated)

  -- verifyAttestationPayload, from the affirming result on
  unfoldable pub verify_affirmed :
      Bytes → Bytes → Bytes → Option Bytes → ProcessedAttestation Key → Exec Verified
  verify_affirmed body format payload agent_kid affirmed = do
    result ← attested_claims format payload affirmed
    sent ← search_sent_message_with_challenge result.attestation_nonce
    if_some sent
        (λ s.
          if_some agent_kid
            (λ kid. pure (record { result = result; agent_kid = some kid; sent = some s }))
            (do
              kid ← adopt_key body format result
              pure (record { result = result; agent_kid = kid; sent = some s })))
        (raise not_authenticated)

  unfoldable pub verify_attestation_payload : Bytes → Message → Option Bytes → Exec Verified
  verify_attestation_payload body incoming agent_kid =
      if_some incoming.options.attestation_payload
        (λ payload. do
          let format = or_empty incoming.options.attestation_payload_format
          result ← submit_attestation_payload format payload
          if is_affirming result.ear_status
              then verify_affirmed body format payload agent_kid result
              else pure (record { result = result; agent_kid = none; sent = none }))
        (raise attestation_payload_not_found)
