-- ===== src/Rats/Backend.antt =====
-- internal/infra/rats/backend.go: which verifier a payload format goes to.
use attes_tam.Base.{Bool, true, false, [], Bytes, if◌then◌else◌}
use attes_tam.Model.{other}
use attes_tam.Exec.{Result, err}
use attes_tam.Text.{text, equal_fold, to_lower, trim_space}
use attes_tam.Base.{bytes_eq}

-- VerifierBackendVeraison and VerifierBackendIntelQVL
pub data Backend : Type 0 where
  veraison intel_qvl : Backend

abbrev pub is_intel_qvl : Backend → Bool
is_intel_qvl intel_qvl = true
is_intel_qvl veraison = false

abbrev pub name_of : Backend → Bytes
name_of veraison = text "veraison"
name_of intel_qvl = text "intel-qvl"

abbrev pub sgx_quote3_teep : Bytes
sgx_quote3_teep = text "application/sgx-quote3-teep-bundle"

unfoldable pub verifier_backend_for_attestation_payload_format : Bytes → Backend
unfolding equal_fold trim_space
verifier_backend_for_attestation_payload_format format =
    if equal_fold (trim_space format) sgx_quote3_teep then intel_qvl else veraison

-- verifierBackendFromPayloadFormat, for the configured backend
unfoldable pub verifier_backend_from_payload_format : Bytes → Backend
unfolding verifier_backend_for_attestation_payload_format to_lower trim_space bytes_eq
verifier_backend_from_payload_format format =
    let trimmed = trim_space format in
    if bytes_eq trimmed []
    then veraison
    else if bytes_eq (to_lower trimmed) (name_of veraison)
    then veraison
    else if bytes_eq (to_lower trimmed) (name_of intel_qvl)
    then intel_qvl
    else verifier_backend_for_attestation_payload_format trimmed

-- NewVerifierForBackend, over the constructors of the two verifiers. The name is compared without
-- its spaces being trimmed.
unfoldable pub new_verifier_for_backend : {V : Type 0} → Result V → Result V → Bytes → Result V
unfolding to_lower bytes_eq
new_verifier_for_backend new_client new_qvl backend =
    if bytes_eq (to_lower backend) (name_of veraison)
    then new_client
    else if bytes_eq (to_lower backend) (name_of intel_qvl)
    then new_qvl
    else err other
