-- ===== src/Tests/Witnesses.antt =====
-- Each theorem applied to a run of the program.
use attes_tam.Base.{
  ◌≡◌, ◌≢◌, ◌↔◌, refl, subst, true, false, none, some, some-injective, [], ◌∷◌, replicate,
}
use attes_tam.Model.{create_schema}
use attes_tam.Exec.{ok}
use attes_tam.Exec.Atomic.{Atomic}
use attes_tam.Sqlite.Tokens.{generate_unique_token}
use attes_tam.Sqlite.Tokens.Fresh.{generate_unique_token_issues}
use attes_tam.Sqlite.Tokens.Fresh as TokenFresh
use attes_tam.Sqlite.Challenges.{generate_unique_challenge}
use attes_tam.Sqlite.Challenges.Fresh.{generate_unique_challenge_issues}
use attes_tam.Sqlite.Challenges.Fresh as ChallengeFresh
use attes_tam.Sqlite.Manifests.Ordered.{IsOrdered}
use attes_tam.Sqlite.Statuses.{reflect_manifest_success}
use attes_tam.Sqlite.Statuses.Reflected.{IsReflected, reflect_manifest_success-Atomic}
use attes_tam.Teep.Message.{success, unmarshal}
use attes_tam.Teep.Items.{
  request_data_item, attestation_requested, tc_list_requested, extensions_requested,
  suit_reports_requested, request_data_item-flags,
}
use attes_tam.Teep.Roundtrip.{sent_part, marshal_round_trip}
use attes_tam.Rats.Quote.{extract_quote_report_data}
use attes_tam.Rats.Quote.Bounds.{IsSafe, extract_quote_report_data-IsSafe}
use attes_tam.Rats.Qvl.{is_intel_qvl_result_affirming_value}
use attes_tam.Rats.Qvl.Affirming.{IsAcceptable, affirming_iff_IsAcceptable}
use attes_tam.Tam.Keyring.{get_teep_agent_key}
use attes_tam.Tam.Sent.{search_sent_message_with_token, search_sent_message_with_challenge}
use attes_tam.Tam.Authenticate.{authenticated}
use attes_tam.Tam.Authenticate.Signed.{IsSound, authenticated_is_signed}
use attes_tam.Tam.Attest.{verify_attestation_payload}
use attes_tam.Tam.Attest.Sound.{IsAttested, verify_attestation_payload-IsAttested}
use attes_tam.Tam.Update.Chosen.{Chosen, choose_manifests-Outcome}
use attes_tam.Tam.Resolve.{reports_success, resolve_error}
use attes_tam.Tam.Resolve.Reports.{failure_reports_are_lost}
use attes_tam.Tam.Repository.{set_envelope}
use attes_tam.Tam.Repository.Envelope.{Accepted, set_envelope-Atomic}
use attes_tam.Tam.Repository.Ordered.{IsPublished, reachable-IsOrdered, set_envelope-IsPublished}
use attes_tam.Tam.System.{here, next, teep_message, envelope, new_signing_key, runs}
use attes_tam.Tam.Replay.{token_answered_once}
use attes_tam.Tam.Challenged.{challenge_answered_once}
use attes_tam.Tam.Revoked.{revoked_key_is_refused}
use attes_tam.Tests.Setup.{
  codec, encode_array, decode_array-encode_array, failed_report, library, tam, start_world,
  agent_kid, signer,
}
use attes_tam.Tests.Everything.{everything}
use attes_tam.Tests.Worlds.{
  first, asked, found, answered, asked_again, challenged, found_challenge, met, met_again,
  component, trusting, first_version, second_version, second_manifest, acquainted, dismissed,
  asked_later, success_bytes, success_message, attesting, verified, error_message, quote,
  no_expiration,
}

token_answered_once_example : (search_sent_message_with_token (some first) asked_again).0 ≡ ok none
unfolding everything
token_answered_once_example =
    token_answered_once library tam first asked found refl asked_again
      (next here (teep_message [] (runs answered refl refl)))

challenge_answered_once_example :
    (search_sent_message_with_challenge (some first) met_again).0 ≡ ok none
unfolding everything
challenge_answered_once_example =
    challenge_answered_once library tam first challenged found_challenge refl met_again
      (next here (teep_message [] (runs met refl refl)))

reachable-IsOrdered_example : IsOrdered second_version.db.suit_manifests
unfolding everything
reachable-IsOrdered_example = reachable-IsOrdered library tam second_version.db (
    next
      (next (next here (new_signing_key signer (runs start_world refl refl))) (
        envelope (some (50 ∷ [])) (60 ∷ []) (replicate 32 9) component 1 (runs trusting refl refl)))
      (envelope (some (51 ∷ [])) (61 ∷ []) (replicate 32 9) component 2
        (runs first_version refl refl)))

set_envelope-Atomic_example :
    Atomic first_version.db
      (set_envelope (some (51 ∷ [])) (61 ∷ []) (replicate 32 9) component 2)
      (λ _. Accepted (51 ∷ []) (61 ∷ []) (replicate 32 9) component 2 first_version.db)
set_envelope-Atomic_example =
    set_envelope-Atomic (51 ∷ []) (61 ∷ []) (replicate 32 9) component 2 first_version.db

set_envelope-IsPublished_example :
    IsPublished
      (51 ∷ [])
      (61 ∷ [])
      component
      2
      first_version.db
      (set_envelope (some (51 ∷ [])) (61 ∷ []) (replicate 32 9) component 2 first_version).1.db
unfolding everything
set_envelope-IsPublished_example =
    set_envelope-IsPublished (51 ∷ []) (61 ∷ []) (replicate 32 9) component 2 first_version refl

choose_manifests-Outcome_example :
    Chosen second_version.db.suit_manifests.rows
      (component ∷ (8 ∷ []) ∷ [])
      (record second_manifest { digest = [] } ∷ [])
unfolding everything
choose_manifests-Outcome_example =
    choose_manifests-Outcome (component ∷ (8 ∷ []) ∷ []) second_version

revoked_key_is_refused_example : (get_teep_agent_key library agent_kid asked_later).0 ≢ ok agent_kid
unfolding everything
revoked_key_is_refused_example =
    revoked_key_is_refused library tam agent_kid acquainted refl asked_later
      (next here (teep_message [] (runs dismissed refl refl))) agent_kid

authenticated_is_signed_example :
    IsSound library success_bytes acquainted.db acquainted.now
      (authenticated success_message agent_kid)
unfolding everything
authenticated_is_signed_example =
    authenticated_is_signed library success_bytes acquainted
      (authenticated success_message agent_kid) refl

reflect_manifest_success-Atomic_example :
    Atomic acquainted.db
      (reflect_manifest_success agent_kid (some (61 ∷ [])) (4 ∷ []))
      (λ _. IsReflected agent_kid (some (61 ∷ [])) acquainted.db)
reflect_manifest_success-Atomic_example =
    reflect_manifest_success-Atomic agent_kid (some (61 ∷ [])) (4 ∷ []) acquainted.db

verify_attestation_payload-IsAttested_example :
    IsAttested library tam success_bytes verified challenged.db
      (verify_attestation_payload library tam success_bytes attesting none challenged).1.db
unfolding everything
verify_attestation_payload-IsAttested_example =
    verify_attestation_payload-IsAttested library tam success_bytes attesting challenged verified
      agent_kid refl refl

failure_reports_are_lost_example :
    resolve_error library error_message (some agent_kid) (some found) acquainted
    ≡ (ok none, acquainted)
unfolding everything
failure_reports_are_lost_example =
    failure_reports_are_lost library error_message found agent_kid acquainted
      (λ r e. subst (λ x. reports_success x ≡ false) (some-injective failed_report r e) refl, tt)

marshal_round_trip_example :
    unmarshal codec (encode_array ((5 ∷ []) ∷ first ∷ [])) ≡ ok (sent_part success success_message)
unfolding everything
marshal_round_trip_example =
    marshal_round_trip codec (λ _. Unit {0}) success_message
      (record {
        array = λ items h short. decode_array-encode_array items;
        type_is_item = tt;
        options_is_item = tt;
        suites_is_item = tt;
        profiles_is_item = tt;
        items_is_item = tt;
        code_is_item = tt;
        type = refl;
        options = refl;
        suites = refl;
        profiles = refl;
        items = refl;
        code = refl;
      })
      (encode_array ((5 ∷ []) ∷ first ∷ [])) refl

extract_quote_report_data-IsSafe_example : IsSafe (extract_quote_report_data quote)
extract_quote_report_data-IsSafe_example = extract_quote_report_data-IsSafe quote

generate_unique_token_issues_example :
    TokenFresh.IsIssued first create_schema (generate_unique_token start_world).1.db
unfolding everything
generate_unique_token_issues_example = generate_unique_token_issues start_world first refl

generate_unique_challenge_issues_example :
    ChallengeFresh.IsIssued first create_schema (generate_unique_challenge start_world).1.db
unfolding everything
generate_unique_challenge_issues_example = generate_unique_challenge_issues start_world first refl

affirming_iff_IsAcceptable_example :
    (is_intel_qvl_result_affirming_value 0xa002 0 ≡ true)
    ↔ ((no_expiration ≡ 0) × IsAcceptable 0xa002)
affirming_iff_IsAcceptable_example = affirming_iff_IsAcceptable 0xa002 0

request_data_item-flags_example :
    (attestation_requested (request_data_item true false false true) ≡ true)
    × (tc_list_requested (request_data_item true false false true) ≡ false)
    × (extensions_requested (request_data_item true false false true) ≡ false)
    × (suit_reports_requested (request_data_item true false false true) ≡ true)
request_data_item-flags_example = request_data_item-flags true false false true
