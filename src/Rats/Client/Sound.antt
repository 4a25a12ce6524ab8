-- ===== src/Rats/Client/Sound.antt =====
-- What an affirming response rests on (internal/infra/rats/verifier_client.go, attest_response.go).
use attes_tam.Base.{
  ℕ, ◌≤◌, ◌<◌, ◌≡◌, ap, sym, subst, ◌∙◌, true, false, some, [], ◌∷◌, Bytes, arith, ltb, leb, ◌||◌,
}
use attes_tam.Exec.{ok}
use attes_tam.Text.{text, equal_fold}
use attes_tam.Rats.Json.{Fields}
use attes_tam.Rats.Results.{required, refuse_if, refuse_if-eq-ok, >>=-eq-ok, required-eq-ok}
use attes_tam.Exec.{ok-injective}
use attes_tam.Rats.Response.{
  ResponseLibrary, AttestationResponse, DecodedResponse, should_send_update, select_update_artifact,
  pretty_evidence, pretty_result_jwt, payload_object, decode_attestation_response,
}
use attes_tam.Rats.Client.{
  ClientLibrary, VerifierClient, PostResponse, create_session, evidence_request, submit_payload,
  process,
}
use attes_tam.Rats.Client.Status.{HasStatus, selected-HasStatus}

-- The verifier has answered the evidence, in a session of its own, with a complete response whose
-- result has the status.
pub record IsReported (lib : ClientLibrary) (v : VerifierClient) (payload : Bytes)
    (d : DecodedResponse) : Type 0 where
  pub session : Bytes
  pub is_session : create_session lib v ≡ ok session
  pub answer : PostResponse
  pub is_answer : lib.post (evidence_request lib v session payload) ≡ some answer
  pub is_success : (200 ≤ answer.status_code) × (answer.status_code < 300)
  pub body : Bytes
  pub is_body : answer.body ≡ some body
  pub is_decoded : lib.responses.decode_response body ≡ some d.response
  pub is_complete : equal_fold d.response.status (text "complete") ≡ true
  pub claims : Fields
  pub jwt : Bytes × Bytes
  pub is_jwt : pretty_result_jwt lib.responses d.response ≡ ok jwt
  pub is_claims : payload_object lib.responses jwt.1 ≡ ok claims
  pub has_status : HasStatus claims d.selection.status

-- The parts of a response that has been decoded.
record IsDecoded (lib : ResponseLibrary) (body : Bytes) (d : DecodedResponse) : Type 0 where
  is_response : lib.decode_response body ≡ some d.response
  jwt : Bytes × Bytes
  is_jwt : pretty_result_jwt lib d.response ≡ ok jwt
  claims : Fields
  is_claims : payload_object lib jwt.1 ≡ ok claims
  is_selection : d.selection ≡ select_update_artifact d.response claims

decode-IsDecoded :
    (lib : ResponseLibrary) (body : Bytes) (d : DecodedResponse)
    → decode_attestation_response lib body ≡ ok d
    → IsDecoded lib body d
unfolding decode_attestation_response
decode-IsDecoded lib [] d h = cc
decode-IsDecoded lib (b ∷ body) d h =
    let (r, (decoded, rest)) = >>=-eq-ok (required (lib.decode_response (b ∷ body))) _ d h in
    let (e, (_, rest')) = >>=-eq-ok (pretty_evidence lib r) _ d rest in
    let (jwt, (pretty, rest'')) = >>=-eq-ok (pretty_result_jwt lib r) _ d rest' in
    let (claims, (parsed, last)) = >>=-eq-ok (payload_object lib jwt.1) _ d rest'' in
    let made =
      ok-injective
        (record {
          response = r;
          send_update = should_send_update r;
          selection = select_update_artifact r claims;
        })
        d last in
    let same = ap (λ x. x.response) made in
    record {
      is_response =
          required-eq-ok (lib.decode_response (b ∷ body)) r decoded ∙ ap (λ x. some x) same;
      jwt = jwt;
      is_jwt = subst (λ x. pretty_result_jwt lib x ≡ ok jwt) same pretty;
      claims = claims;
      is_claims = parsed;
      is_selection =
          sym (ap (λ x. x.selection) made) ∙ ap (λ x. select_update_artifact x claims) same;
    }

-- The answer to the evidence.
submit-answered :
    (lib : ClientLibrary) (v : VerifierClient) (session payload body : Bytes)
    → submit_payload lib v session payload ≡ ok body
    → (a : PostResponse) × ((lib.post (evidence_request lib v session payload) ≡ some a)
        × (((200 ≤ a.status_code) × (a.status_code < 300)) × (a.body ≡ some body)))
unfolding submit_payload
submit-answered lib v session payload body h =
    let (a, (posted, rest)) =
      >>=-eq-ok (required (lib.post (evidence_request lib v session payload))) _ body h in
    let (u, (checked, last)) =
      >>=-eq-ok (refuse_if (ltb a.status_code 200 || leb 300 a.status_code)) _ body rest in
    (
      a,
      (
        required-eq-ok _ a posted,
        (in_range a.status_code (refuse_if-eq-ok _ u checked), required-eq-ok a.body body last),
      ),
    )
  where
    in_range : (n : ℕ) → (ltb n 200 || leb 300 n) ≡ false → (200 ≤ n) × (n < 300)
    in_range n e = ground arith

complete_of :
    (r : AttestationResponse)
    → should_send_update r ≡ true
    → equal_fold r.status (text "complete") ≡ true
unfolding should_send_update
complete_of r h = h

-- If the verifier client's result is affirming, then the verifier answered the evidence, which was
-- posted in a session that it had opened, with a status of success and a response that is
-- complete, in whose result the status stands among the submods.
pub process-IsReported :
    (lib : ClientLibrary) (v : VerifierClient) (payload : Bytes) (d : DecodedResponse)
    → process lib v payload ≡ ok d
    → equal_fold d.selection.status (text "affirming") ≡ true
    → IsReported lib v payload d
unfolding process
process-IsReported lib v [] d h affirming = cc
process-IsReported lib v (b ∷ payload) d h affirming =
    let (session, (opened, rest)) = >>=-eq-ok (create_session lib v) _ d h in
    let (body, (submitted, last)) =
      >>=-eq-ok (submit_payload lib v session (b ∷ payload)) _ d rest in
    let (answer, (posted, (success, read))) =
      submit-answered lib v session (b ∷ payload) body submitted in
    let decoded = decode-IsDecoded lib.responses body d last in
    let (complete, status) =
      selected-HasStatus d.response decoded.claims d.selection.status
        (sym (ap (λ x. x.status) decoded.is_selection)) affirming in
    record {
      session = session;
      is_session = opened;
      answer = answer;
      is_answer = posted;
      is_success = success;
      body = body;
      is_body = read;
      is_decoded = decoded.is_response;
      is_complete = complete_of d.response complete;
      claims = decoded.claims;
      jwt = decoded.jwt;
      is_jwt = decoded.is_jwt;
      is_claims = decoded.is_claims;
      has_status = status;
    }
