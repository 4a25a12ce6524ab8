-- ===== src/Server.antt =====
-- internal/server/handler.go: requests, responses and the answers to errors.
pub mod Handlers
pub mod Start
pub mod Register
pub mod Reads
pub mod Published
use Prim.Native.String.{String}
use attes_tam.Base.{
  ℕ, Bool, true, false, not, ◌&&◌, ◌||◌, Option, none, some, List, [], ◌∷◌, map, Bytes, bytes_eq,
  length, ltb, ◌*◌, ◌^◌, if◌then◌else◌,
}
use attes_tam.Model.{
  Error, panic, verifier_not_configured, not_authenticated, smaller_sequence_number,
  signing_key_mismatch, Entity, SuitManifest, SuitManifestOverview,
}
use attes_tam.Exec.{Result, ok, err, Exec, pure, raise, attempt, if_some, if_ok, ◌>>=◌, ◌>>◌}
use attes_tam.Text.{text}
use attes_tam.Sqlite.Parties.{find_entity_by_name}
use attes_tam.Suit.{SuitLibrary, Manifest, Envelope, skip_tag, unmarshal_envelope, verify, nested}
use attes_tam.Tam.Library.{Library, Tam}
use attes_tam.Tam.Keyring.{get_entity_key}
use attes_tam.Tam.Repository.{get_manifests, set_envelope}
use attes_tam.Tam.Resolve.{resolve_teep_message}
use attes_tam.Tam.Status.{AgentStatusKey, AgentStatusRecord, get_agent_status, get_agent_statuses}

-- What the handlers read of an http.Request. `body` is none if reading fails.
pub record Request : Type 0 where
  pub path : Bytes
  pub method : Bytes
  pub accept : Bytes
  pub content_type : Bytes
  pub body : Option Bytes
  pub body_closes : Bool

pub record Response : Type 0 where
  pub status : ℕ
  pub body : Bytes
  pub content_type : Bytes

-- cbor.Marshal of the lists that are answered, and cbor.Unmarshal of a list of key ids
pub record ServerCodec : Type 0 where
  pub encode_manifests : List SuitManifestOverview → Option Bytes
  pub encode_agents : List AgentStatusKey → Option Bytes
  pub encode_statuses : List AgentStatusRecord → Option Bytes
  pub decode_kids : Bytes → Option (List Bytes)

-- http.Error
abbrev pub http_error : String → ℕ → Response
http_error message status = record {
  status = status;
  body = text message;
  content_type = text "text/plain; charset=utf-8";
}

abbrev pub answer : Bytes → String → Response
answer body type = record { status = 200; body = body; content_type = text type }

abbrev pub no_content : Response
no_content = record { status = 204; body = []; content_type = [] }

abbrev pub is_method : Request → String → Bool
is_method r m = bytes_eq r.method (text m)

abbrev pub accepts : Request → String → Bool
accepts r type = bytes_eq r.accept (text type)

abbrev pub has_content_type : Request → String → Bool
has_content_type r type = bytes_eq r.content_type (text type)

abbrev pub max_request_body_bytes : ℕ
max_request_body_bytes = 32 * 2 ^ 10

abbrev pub max_request_body_bytes_for_suit : ℕ
max_request_body_bytes_for_suit = 32 * 2 ^ 20

-- http.MaxBytesReader, io.ReadAll and Close: the body, or the answer to what went wrong.
pub data ReadBody : Type 0 where
  read : Bytes → ReadBody
  too_large unreadable : ReadBody

abbrev pub read_within : ℕ → Option Bytes → Bool → ReadBody
read_within limit none closes = unreadable
read_within limit (some b) closes =
    if ltb limit (length b) then too_large else if closes then read b else unreadable

unfoldable pub read_body : ℕ → Request → ReadBody
read_body limit r = read_within limit r.body r.body_closes

abbrev pub on_body : ReadBody → (Bytes → Exec Response) → Response → Response → Exec Response
on_body (read b) f large bad = f b
on_body too_large f large bad = pure large
on_body unreadable f large bad = pure bad

abbrev pub internal_error : Response
internal_error = http_error "Internal Server Error" 500

abbrev pub method_not_allowed : Response
method_not_allowed = http_error "Method Not Allowed" 405

-- A panic in a handler is recovered by net/http, and there is no response.
abbrev pub is_panic : Error → Bool
is_panic panic = true
is_panic _ = false

abbrev pub failed_with : (Error → Response) → Error → Exec Response
failed_with f e = if is_panic e then raise panic else pure (f e)

abbrev pub resolution_error : Error → Response
resolution_error verifier_not_configured =
    http_error
      "verifier client is not configured, so attestation with challenge-response is not available"
      503
resolution_error _ = internal_error

abbrev pub reply : Option Bytes → Response
reply none = no_content
reply (some []) = no_content
reply (some (b ∷ body)) = answer (b ∷ body) "application/teep+cbor"

-- The errors that are answered with 400; the others are answered with 500.
abbrev pub is_refusal : Error → Bool
is_refusal not_authenticated = true
is_refusal smaller_sequence_number = true
is_refusal signing_key_mismatch = true
is_refusal _ = false

abbrev pub registration_message : Error → String
registration_message not_authenticated = "the manifest signing key is not trusted by the TAM"
registration_message smaller_sequence_number =
    "the manifest sequence number should be bigger than the existing one"
registration_message signing_key_mismatch =
    "the manifest signing key should be the same as the existing one"
registration_message _ = "failed to add SUIT Manifest"

abbrev pub registration_status : Bool → ℕ
registration_status true = 400
registration_status false = 500

abbrev pub registration_error : Error → Response
registration_error e = http_error (registration_message e) (registration_status (is_refusal e))

abbrev pub not_parsed : Response
not_parsed = http_error "failed to parse SUIT Manifest" 400

-- The one element of a list.
abbrev pub single : {A : Type 0} → List A → Option A
single [] = none
single (a ∷ []) = some a
single (_ ∷ _ ∷ _) = none

-- Unmarshalling and its error as a missing value.
abbrev pub succeeded : {A : Type 0} → Result A → Option A
succeeded (ok a) = some a
succeeded (err _) = none

abbrev pub overview : SuitManifest → SuitManifestOverview
overview m = record {
  trusted_component_id = m.trusted_component_id;
  sequence_number = m.sequence_number;
}

abbrev pub join : {A : Type 0} → Option (Option A) → Option A
join none = none
join (some a) = a

abbrev pub admin_name : Bytes
admin_name = text "admin@example.com"
