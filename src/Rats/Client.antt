-- ===== src/Rats/Client.antt =====
-- VerifierClient of internal/infra/rats/verifier_client.go: the challenge-response session with a
-- verifier. The log is left out.
pub mod Status
pub mod Sound
use attes_tam.Base.{
  ℕ, ◌*◌, Bool, false, not, ◌&&◌, ◌||◌, Option, none, some, [], ◌∷◌, Bytes, bytes_eq, ltb, leb,
  ◌==◌, if◌then◌else◌,
}
use attes_tam.Model.{second, other}
use attes_tam.Exec.{Result, ok, err}
use attes_tam.Text.{text}
use attes_tam.Rats.Claims.{ProcessedAttestation}
use attes_tam.Rats.Response.{ResponseLibrary, DecodedResponse, decode_attestation_response}
use attes_tam.Rats.Results.{◌>>=◌, ◌>>◌, required, refuse_if}

-- A POST with the header User-Agent of the client and Accept */*.
pub record PostRequest : Type 0 where
  pub url : Bytes
  pub content_type : Option Bytes
  pub body : Bytes

-- The body is `none` if the reading of it fails.
pub record PostResponse : Type 0 where
  pub status_code : ℕ
  pub location : Bytes
  pub body : Option Bytes

-- net/url over URLs as texts, and net/http; `none` is an error. `resolve` is URL.Parse, and
-- `with_nonce` sets a query's nonce.
pub record ClientLibrary : Type 0 where
  pub responses : ResponseLibrary
  pub parse_url : Bytes → Option Bytes
  pub is_https : Bytes → Bool
  pub resolve : Bytes → Bytes → Option Bytes
  pub with_nonce : Bytes → Bytes → Bytes
  pub post : PostRequest → Option PostResponse

-- What the constructor reads of config.RAConfig.
pub record ClientConfig : Type 0 where
  pub base_url : Bytes
  pub content_type : Bytes
  pub insecure_tls : Bool
  pub timeout : ℕ

pub record VerifierClient : Type 0 where
  pub base_url : Bytes
  pub content_type : Bytes
  pub timeout : ℕ
  pub skips_verification : Bool

abbrev pub challenge_nonce : Bytes
challenge_nonce = text "QUp8F0FBs9DpodKK8xUg8NQimf6sQAfe2J1ormzZLxk="

abbrev pub default_challenge_timeout : ℕ
default_challenge_timeout = 60 * second

abbrev pub default_challenge_content_type : Bytes
default_challenge_content_type = text "application/eat+cwt; eat_profile=\"urn:ietf:rfc:rfc9711\""

-- What a call of a method comes to.
pub data Called (A : Type 0) : Type 0 where
  returns : A → Called A
  panics : Called A

module _ (lib : ClientLibrary) where
  abbrev pub client_of : ClientConfig → Bytes → VerifierClient
  client_of cfg base = record {
    base_url = base;
    content_type = cfg.content_type;
    timeout = if cfg.timeout == 0 then default_challenge_timeout else cfg.timeout;
    skips_verification = if lib.is_https base then cfg.insecure_tls else false;
  }

  -- NewVerifierClient; a nil pointer is `none`.
  unfoldable pub new_verifier_client : ClientConfig → Result (Option VerifierClient)
  unfolding bytes_eq
  new_verifier_client cfg =
      if bytes_eq cfg.base_url []
      then ok none
      else (do base ← required (lib.parse_url cfg.base_url); ok (some (client_of cfg base)))

  unfoldable pub create_session : VerifierClient → Result Bytes
  unfolding bytes_eq
  create_session v = do
    new_session ← required (lib.resolve v.base_url (text "/challenge-response/v1/newSession"))
    let url = lib.with_nonce challenge_nonce new_session
    resp ← required (lib.post (record { url = url; content_type = none; body = [] }))
    refuse_if (not (resp.status_code == 201))
    refuse_if (bytes_eq resp.location [])
    required (lib.resolve url resp.location)

  -- The POST of submitPayload.
  abbrev pub evidence_request : VerifierClient → Bytes → Bytes → PostRequest
  evidence_request v session payload = record {
    url = session;
    content_type =
        some
          (if bytes_eq v.content_type [] then default_challenge_content_type else v.content_type);
    body = payload;
  }

  unfoldable pub submit_payload : VerifierClient → Bytes → Bytes → Result Bytes
  unfolding bytes_eq
  submit_payload v session payload = do
    resp ← required (lib.post (evidence_request v session payload))
    refuse_if (ltb resp.status_code 200 || leb 300 resp.status_code)
    required resp.body

  unfoldable pub process : VerifierClient → Bytes → Result DecodedResponse
  unfolding create_session submit_payload decode_attestation_response
  process v [] = err other
  process v (b ∷ payload) = do
    session ← create_session v
    body ← submit_payload v session (b ∷ payload)
    decode_attestation_response lib.responses body

  -- Process as it is called on a pointer: the test of the payload comes before the first use of the
  -- receiver, its `timeout`.
  unfoldable pub process_at : Option VerifierClient → Bytes → Called (Result DecodedResponse)
  unfolding process
  process_at p [] = returns (err other)
  process_at none (b ∷ payload) = panics
  process_at (some v) (b ∷ payload) = returns (process v (b ∷ payload))
