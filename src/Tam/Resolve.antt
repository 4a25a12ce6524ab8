-- ===== src/Tam/Resolve.antt =====
-- ResolveTEEPMessage of internal/tam/tam.go.
pub mod Reports
use attes_tam.Base.{
  ℕ, Bool, true, false, not, ◌&&◌, ◌||◌, Option, none, some, List, [], ◌∷◌, Bytes, length, ◌==◌,
  if◌then◌else◌,
}
use attes_tam.Base.Int.{ℤ, int_eq}
use attes_tam.Model.{Error, not_supported, not_authenticated, attestation_failed, not_a_response}
use attes_tam.Exec.{Result, ok, err, Exec, pure, raise, attempt, if_some, if_ok, ◌>>=◌, ◌>>◌}
use attes_tam.Sqlite.Statuses
use attes_tam.Teep.Message.{
  MessageType, query_request, query_response, update, success, error, unknown, Message,
}
use attes_tam.Teep.Report.{Report, Digest, DetailedResult, report_reason_ok}
use attes_tam.Tam.Library.{Library, Tam}
use attes_tam.Tam.Sent.{
  cose_algorithm_sha256, search_sent_message_with_token, generate_query_request,
  generate_query_request_with_attestation,
}
use attes_tam.Tam.Authenticate.{Authentication, try_authenticate_teep_message}
use attes_tam.Tam.Attest.{Verified, is_affirming, verify_attestation_payload}
use attes_tam.Tam.Update.{process_query_response}

-- The first of two optional values that is there.
abbrev pub or_else : {A : Type 0} → Option A → Option A → Option A
or_else none b = b
or_else (some a) b = some a

-- The digest of a report is that of a SHA-256.
abbrev pub is_well_formed : Digest → Bool
is_well_formed d = int_eq d.digest_alg cose_algorithm_sha256 && length d.digest_bytes == 32

abbrev pub is_true : Option Bool → Bool
is_true none = false
is_true (some b) = b

abbrev pub reason_is_ok : Option DetailedResult → Bool
reason_is_ok none = false
reason_is_ok (some r) = r.result_reason == report_reason_ok

-- the test of both loops over the reports
unfoldable pub reports_success : Report → Bool
reports_success r = is_true r.result.is_true || reason_is_ok r.result.detailed_result

module _ {Key : Type 0} (lib : Library Key) where
  -- One round of a loop over the reports. `reflect` updates the status; its errors are ignored. A
  -- digest that cannot be encoded is passed on as nil.
  unfoldable pub handle_report : (Option Bytes → Bytes → Exec ℕ) → Bytes → Exec Unit
  handle_report reflect bytes =
      if_some (lib.decode_report bytes)
        (λ report.
          if is_well_formed report.reference.digest && reports_success report
          then (attempt (reflect (lib.encode_digest report.reference.digest) bytes) >>= λ _.
              pure tt)
          else pure tt)
        (pure tt)

  unfoldable pub handle_reports : (Option Bytes → Bytes → Exec ℕ) → List Bytes → Exec Unit
  handle_reports reflect [] = pure tt
  handle_reports reflect (r ∷ rs) = handle_report reflect r >>= λ _. handle_reports reflect rs

  -- the `case TEEPTypeSuccess`
  unfoldable pub resolve_success : Message → Option Bytes → Option Message → Exec (Option Bytes)
  resolve_success incoming agent_kid sent =
      if_some agent_kid
        (λ kid.
          if_some sent
            (λ _. do
              handle_reports (Statuses.reflect_manifest_success kid) incoming.options.suit_reports
              pure none)
            (raise not_a_response))
        (raise not_authenticated)

  -- the `case TEEPTypeError`, with the same test of the reports as for a success
  unfoldable pub resolve_error : Message → Option Bytes → Option Message → Exec (Option Bytes)
  resolve_error incoming agent_kid sent =
      if_some agent_kid
        (λ kid.
          if_some sent
            (λ _. do
              handle_reports (Statuses.record_manifest_processing_failure kid)
                  incoming.options.suit_reports
              pure none)
            (raise not_a_response))
        (raise not_authenticated)

module _ {Key : Type 0} (lib : Library Key) (tam : Tam Key) where
  -- `finally authenticated?`
  unfoldable pub respond : Message → Option Bytes → Option Message → Exec (Option Bytes)
  respond incoming agent_kid sent =
      if_some agent_kid
        (λ kid.
          if_some sent (λ s. process_query_response lib tam incoming kid s)
            (raise not_authenticated))
        (raise not_authenticated)

  unfoldable pub respond_attested : Message → Option Bytes → Verified lib tam → Exec (Option Bytes)
  respond_attested incoming agent_kid verified =
      if is_affirming verified.result.ear_status
      then respond incoming (or_else verified.agent_kid agent_kid) verified.sent
      else raise attestation_failed

  -- the `case TEEPTypeQueryResponse`
  unfoldable pub resolve_query_response :
      Bytes → Message → Option Bytes → Option Message → Exec (Option Bytes)
  resolve_query_response body incoming agent_kid sent =
      if_some sent
        (λ s.
          if_some agent_kid (λ kid. respond incoming (some kid) (some s))
            (generate_query_request_with_attestation lib tam))
        (do
          verified ← verify_attestation_payload lib tam body incoming agent_kid
          respond_attested incoming agent_kid verified)

  -- the `switch incomingMessage.Type`
  unfoldable pub dispatch :
      MessageType → Bytes → Message → Option Bytes → Option Message → Exec (Option Bytes)
  dispatch query_response body incoming agent_kid sent =
      resolve_query_response body incoming agent_kid sent
  dispatch success body incoming agent_kid sent = resolve_success lib incoming agent_kid sent
  dispatch error body incoming agent_kid sent = resolve_error lib incoming agent_kid sent
  dispatch query_request body incoming agent_kid sent = raise not_supported
  dispatch update body incoming agent_kid sent = raise not_supported
  dispatch unknown body incoming agent_kid sent = raise not_supported

  -- An authentication error other than ErrNotAuthenticated ends the call.
  abbrev pub blocking : Option Error → Option Error
  blocking none = none
  blocking (some not_authenticated) = none
  blocking (some e) = some e

  unfoldable pub resolve_authenticated : Bytes → Authentication → Exec (Option Bytes)
  resolve_authenticated body auth = if_some (blocking auth.error) raise (
      if_some auth.message
        (λ incoming. do
          sent ← search_sent_message_with_token incoming.options.token
          dispatch incoming.type body incoming auth.agent_kid sent)
        (if_some auth.error raise (pure none)))

  -- ResolveTEEPMessage; `none` is the nil response, which ends the session.
  unfoldable pub resolve_teep_message : Bytes → Exec (Option Bytes)
  resolve_teep_message [] = generate_query_request lib tam
  resolve_teep_message (b ∷ body) = do
    auth ← try_authenticate_teep_message lib (b ∷ body)
    resolve_authenticated (b ∷ body) auth
