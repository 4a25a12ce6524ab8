-- ===== src/Rats/Response.antt =====
-- internal/infra/rats/attest_response.go: what a verifier's response says of the attestation. The
-- texts that are only printed are left out, but not the errors on the way to them.
use attes_tam.Base.{
  Bool, true, false, Option, none, some, List, [], ◌∷◌, Bytes, bytes_eq, if◌then◌else◌,
}
use attes_tam.Model.{other}
use attes_tam.Exec.{Result, ok, err}
use attes_tam.Text.{text, equal_fold, trim_space, split}
use attes_tam.Rats.Json.{Json, Fields, empty, field, object, member}
use attes_tam.Rats.Results.{◌>>=◌, ◌>>◌, required, refuse_if}

-- The fields of AttestationResponse that are read; `evidence` is Evidence.Value.
pub record AttestationResponse : Type 0 where
  pub status : Bytes
  pub evidence : Bytes
  pub result : Bytes

-- encoding/json, encoding/base64 and fxamacker/cbor; `none` is an error.
pub record ResponseLibrary : Type 0 where
  pub decode_response : Bytes → Option AttestationResponse
  -- StdEncoding, RawStdEncoding, URLEncoding and RawURLEncoding
  pub base64_std : Bytes → Option Bytes
  pub base64_raw_std : Bytes → Option Bytes
  pub base64_url : Bytes → Option Bytes
  pub base64_raw_url : Bytes → Option Bytes
  -- cbor.Unmarshal and RenderCBORPretty
  pub render_cbor : Bytes → Option Bytes
  -- json.Unmarshal and json.MarshalIndent of any value
  pub render_json : Bytes → Option Bytes
  -- json.Unmarshal into map[string]any
  pub decode_object : Bytes → Option Fields

-- updateArtifactAffirmingPath and updateArtifactErrorPath
pub data UpdateArtifact : Type 0 where
  affirming_artifact error_artifact : UpdateArtifact

pub record Selection : Type 0 where
  pub artifact : Option UpdateArtifact
  pub status : Bytes
  pub failed : Bool

unfoldable pub should_send_update : AttestationResponse → Bool
unfolding equal_fold
should_send_update r = equal_fold r.status (text "complete")

-- One step of the search for a submod: the value of a key if it is an object.
abbrev pub or_next : Option Json → Option Fields → Option Fields
or_next (some (object m)) next = some m
or_next _ next = next

unfoldable pub submod_of : Fields → List Bytes → Option Fields
unfolding member
submod_of m [] = none
submod_of m (key ∷ keys) = or_next (member key m) (submod_of m keys)

abbrev pub submod_keys : List Bytes
submod_keys = text "PSA_IOT" ∷ text "GENERIC_EAT" ∷ []

abbrev pub status_of : Option Json → Result Bytes
status_of (some (Json.string s)) = ok (trim_space s)
status_of _ = err other

abbrev pub status_in : Option Fields → Result Bytes
status_in none = err other
status_in (some submod) = status_of (member (text "ear.status") submod)

abbrev pub status_among : Option Json → Result Bytes
status_among (some (object submods)) = status_in (submod_of submods submod_keys)
status_among _ = err other

unfoldable pub extract_ear_status : Fields → Result Bytes
unfolding member submod_of trim_space
extract_ear_status empty = err other
extract_ear_status (field n value rest) =
    status_among (member (text "submods") (field n value rest))

abbrev pub selected : Result Bytes → Selection
selected (err e) = record { artifact = some error_artifact; status = []; failed = true }
selected (ok status) = record {
  artifact =
      some (if equal_fold status (text "affirming") then affirming_artifact else error_artifact);
  status = status;
  failed = false;
}

unfoldable pub select_update_artifact : AttestationResponse → Fields → Selection
unfolding should_send_update extract_ear_status equal_fold
select_update_artifact r payload =
    if should_send_update r
    then selected (extract_ear_status payload)
    else record { artifact = none; status = []; failed = false }

-- Of the ProcessedAttestation: the response, SendUpdate, and what was selected.
pub record DecodedResponse : Type 0 where
  pub response : AttestationResponse
  pub send_update : Bool
  pub selection : Selection

abbrev pub first_some : Option Bytes → Option Bytes → Option Bytes
first_some (some b) next = some b
first_some none next = next

module _ (lib : ResponseLibrary) where
  unfoldable pub decode_base64_string : Bytes → Result Bytes
  unfolding bytes_eq trim_space
  decode_base64_string value =
      let stripped = trim_space value in
      if bytes_eq stripped []
      then err other
      else required (
          first_some (lib.base64_std stripped) (
            first_some (lib.base64_raw_std stripped)
              (first_some (lib.base64_url stripped) (lib.base64_raw_url stripped))))

  unfoldable pub pretty_evidence : AttestationResponse → Result Bytes
  unfolding decode_base64_string bytes_eq
  pretty_evidence r = do
    raw ← decode_base64_string r.evidence
    refuse_if (bytes_eq raw [])
    required (lib.render_cbor raw)

  unfoldable pub decode_jwt_section : Bytes → Result Bytes
  decode_jwt_section segment = do
    json ← required (lib.base64_raw_url segment)
    required (lib.render_json json)

  abbrev pub header_and_payload : List Bytes → Result (Bytes × Bytes)
  header_and_payload (header ∷ payload ∷ _) = do
    h ← decode_jwt_section header
    p ← decode_jwt_section payload
    ok (h, p)
  header_and_payload _ = err other

  unfoldable pub pretty_result_jwt : AttestationResponse → Result (Bytes × Bytes)
  unfolding bytes_eq split decode_jwt_section
  pretty_result_jwt r = do
    refuse_if (bytes_eq r.result [])
    header_and_payload (split b'.' r.result)

  abbrev pub payload_object : Bytes → Result Fields
  payload_object [] = ok empty
  payload_object (b ∷ pretty) = required (lib.decode_object (b ∷ pretty))

  unfoldable pub decode_attestation_response : Bytes → Result DecodedResponse
  unfolding pretty_evidence pretty_result_jwt select_update_artifact should_send_update
  decode_attestation_response [] = err other
  decode_attestation_response (b ∷ payload) = do
    r ← required (lib.decode_response (b ∷ payload))
    _ ← pretty_evidence r
    jwt ← pretty_result_jwt r
    claims ← payload_object jwt.1
    ok (record {
      response = r;
      send_update = should_send_update r;
      selection = select_update_artifact r claims;
    })
