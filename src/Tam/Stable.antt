-- ===== src/Tam/Stable.antt =====
-- Stable predicates and the handling of a message up to its reports (internal/tam/tam.go).
use attes_tam.Base.{ℕ, Option, none, List, [], ◌∷◌, Bytes}
use attes_tam.Model.{Db, SuitManifest}
use attes_tam.Exec.{Exec}
use attes_tam.Exec.Keeps.{
  Keeps, Keeps-raise, Keeps-pure, Keeps-bind, Keeps-if, Keeps-if_some, keeps_rules,
}
use attes_tam.Sqlite.Stable.{
  IsStable, token_generated, token_marked, challenge_generated, challenge_marked, query_with_token,
  query_with_challenge, query_found_by_token, query_found_by_challenge, agent_found,
  agent_found_ignoring, agent_created, device_found, latest_found, update_with_token, update_found,
}
use attes_tam.Teep.Message.{Message}
use attes_tam.Rats.Claims.{ProcessedAttestation}
use attes_tam.Tam.Library.{Sign1, Library, Tam}
use attes_tam.Tam.Keyring.{find_device_id, add_agent, set_teep_agent_key, get_teep_agent_key}
use attes_tam.Tam.Sent.{
  or_nil, or_fatal, generate_token, generate_challenge, save_sent_query_request, save_sent_update,
  search_consumed_challenge, search_sent_message_with_challenge, search_sent_update,
  search_consumed, search_sent_message_with_token, cose_sign1_sign, send_query_request,
  generate_query_request, generate_query_request_with_attestation,
}
use attes_tam.Tam.Authenticate.{check_signature_with_kid, try_authenticate_teep_message}
use attes_tam.Tam.Attest.{
  Verified, submit_attestation_payload, attested_claims, adopt_key, verify_affirmed,
  verify_attestation_payload,
}
use attes_tam.Tam.Update.{choose_manifest, choose_manifests, send_update, process_query_response}
use attes_tam.Tam.Resolve.{
  handle_report, handle_reports, respond, respond_attested, resolve_query_response,
}

pub or_nil-Keeps : {A : Type 0} {P : Db → Type 0} (m : Exec A) → Keeps P m → Keeps P (or_nil m)
unfolding or_nil
or_nil-Keeps m k = search keeps_rules

pub or_fatal-Keeps : {A : Type 0} {P : Db → Type 0} (m : Exec A) → Keeps P m → Keeps P (or_fatal m)
unfolding or_fatal
or_fatal-Keeps m k = search keeps_rules

pub ruleset rules = (keeps_rules, or_nil-Keeps, or_fatal-Keeps)

-- The verifier and the claims do not touch the database.
module _ {P : Db → Type 0} {Key : Type 0} (lib : Library Key) (tam : Tam Key) where
  pub payload_submitted : (f p : Bytes) → Keeps P (submit_attestation_payload lib tam f p)
  unfolding submit_attestation_payload
  payload_submitted f p = search rules depth 8

  pub claims_attested :
      (f p : Bytes) (r : ProcessedAttestation Key) → Keeps P (attested_claims lib tam f p r)
  unfolding attested_claims
  claims_attested f p r = search rules depth 8

module _ {P : Db → Type 0} (s : IsStable P) where
  token_issued : Keeps P generate_token
  unfolding generate_token
  token_issued = search (rules, token_generated s)

  challenge_issued : Keeps P generate_challenge
  unfolding generate_challenge
  challenge_issued = search (rules, challenge_generated s)

  query_saved : (m : Message) → Keeps P (save_sent_query_request m)
  unfolding save_sent_query_request
  query_saved m = search (rules, query_with_token s, query_with_challenge s) depth 8

  update_saved :
      (m : Message) (token kid : Bytes) (ms : List SuitManifest)
      → Keeps P (save_sent_update m token kid ms)
  unfolding save_sent_update
  update_saved m token kid ms = search (rules, update_with_token s) depth 8

  pub searched_consumed_challenge : (c : Bytes) → Keeps P (search_consumed_challenge c)
  unfolding search_consumed_challenge
  searched_consumed_challenge c = search (rules, query_found_by_challenge s) depth 8

  pub searched_with_challenge : (c : Option Bytes) → Keeps P (search_sent_message_with_challenge c)
  unfolding search_sent_message_with_challenge
  searched_with_challenge c =
      search (rules, challenge_marked s, searched_consumed_challenge) depth 8

  searched_update : (t : Bytes) → Keeps P (search_sent_update t)
  unfolding search_sent_update
  searched_update t = search (rules, update_found s) depth 8

  pub searched_consumed : (t : Bytes) → Keeps P (search_consumed t)
  unfolding search_consumed
  searched_consumed t = search (rules, query_found_by_token s, searched_update) depth 8

  pub searched_with_token : (t : Option Bytes) → Keeps P (search_sent_message_with_token t)
  unfolding search_sent_message_with_token
  searched_with_token t = search (rules, token_marked s, searched_consumed) depth 8

  device_id_found : (ueid : Option Bytes) → Keeps P (find_device_id ueid)
  unfolding find_device_id
  device_id_found ueid = search (rules, device_found s) depth 8

  agent_added : (kid key : Bytes) (ueid : Option Bytes) → Keeps P (add_agent kid key ueid)
  unfolding add_agent
  agent_added kid key ueid =
      search (rules, agent_found_ignoring s, agent_created s, device_id_found) depth 10

module _ {P : Db → Type 0} (s : IsStable P) {Key : Type 0} (lib : Library Key) where
  pub key_set : (key : Option Key) (ueid : Option Bytes) → Keeps P (set_teep_agent_key lib key ueid)
  unfolding set_teep_agent_key
  key_set key ueid = search (rules, agent_added s) depth 10

  pub key_got : (kid : Bytes) → Keeps P (get_teep_agent_key lib kid)
  unfolding get_teep_agent_key
  key_got kid = search (rules, agent_found s) depth 8

  signature_checked : (m : Sign1) → Keeps P (check_signature_with_kid lib m)
  unfolding check_signature_with_kid
  signature_checked m = search (rules, key_got) depth 10

  pub message_authenticated : (raw : Bytes) → Keeps P (try_authenticate_teep_message lib raw)
  unfolding try_authenticate_teep_message
  message_authenticated raw = search (rules, signature_checked)

  report_handled :
      (reflect : Option Bytes → Bytes → Exec ℕ) (r : Bytes)
      → ((d : Option Bytes) (b : Bytes) → Keeps P (reflect d b))
      → Keeps P (handle_report lib reflect r)
  unfolding handle_report
  report_handled reflect r k = search (rules, k) depth 8

  pub reports_handled :
      (reflect : Option Bytes → Bytes → Exec ℕ) (rs : List Bytes)
      → ((d : Option Bytes) (b : Bytes) → Keeps P (reflect d b))
      → Keeps P (handle_reports lib reflect rs)
  unfolding handle_reports
  reports_handled reflect [] k = Keeps-pure tt
  reports_handled reflect (r ∷ rs) k =
      Keeps-bind _ _ (report_handled reflect r k) (λ _. reports_handled reflect rs k)

module _ {P : Db → Type 0} (s : IsStable P) {Key : Type 0} (lib : Library Key) (tam : Tam Key) where
  message_signed : (m : Message) → Keeps P (cose_sign1_sign lib tam m)
  unfolding cose_sign1_sign
  message_signed m = search rules depth 8

  query_sent : (m : Message) → Keeps P (send_query_request lib tam m)
  unfolding send_query_request
  query_sent m = search (rules, message_signed, query_saved s) depth 8

  pub query_generated : Keeps P (generate_query_request lib tam)
  unfolding generate_query_request
  query_generated =
      Keeps-bind _ _ (token_issued s) λ t. Keeps-if_some t _ _ (λ _. query_sent _) (Keeps-raise _)

  attestation_generated : Keeps P (generate_query_request_with_attestation lib tam)
  unfolding generate_query_request_with_attestation
  attestation_generated =
      Keeps-bind _ _ (challenge_issued s)
        λ c. Keeps-if_some c _ _ (λ _. query_sent _) (Keeps-raise _)

  key_adopted : (b f : Bytes) (r : ProcessedAttestation Key) → Keeps P (adopt_key lib tam b f r)
  unfolding adopt_key
  key_adopted b f r = search (rules, key_set s lib) depth 10

  affirmed_verified :
      (b f p : Bytes) (kid : Option Bytes) (r : ProcessedAttestation Key)
      → Keeps P (verify_affirmed lib tam b f p kid r)
  unfolding verify_affirmed
  affirmed_verified b f p kid r =
      search (rules, claims_attested, searched_with_challenge s, key_adopted) depth 10

  payload_verified :
      (b : Bytes) (m : Message) (kid : Option Bytes)
      → Keeps P (verify_attestation_payload lib tam b m kid)
  unfolding verify_attestation_payload
  payload_verified b m kid = search (rules, payload_submitted, affirmed_verified) depth 10

  manifest_chosen :
      (c : Bytes) (others : Exec (List SuitManifest))
      → Keeps P others
      → Keeps P (choose_manifest c others)
  unfolding choose_manifest
  manifest_chosen c others k = search (rules, latest_found s) depth 8

  manifests_chosen : (cs : List Bytes) → Keeps P (choose_manifests cs)
  unfolding choose_manifests
  manifests_chosen [] = Keeps-pure []
  manifests_chosen (c ∷ cs) = manifest_chosen c (choose_manifests cs) (manifests_chosen cs)

  update_sent : (kid t : Bytes) (ms : List SuitManifest) → Keeps P (send_update lib tam kid t ms)
  unfolding send_update
  update_sent kid t [] = Keeps-pure none
  update_sent kid t (m ∷ ms) =
      Keeps-bind _ _ (message_signed _) λ r. search (rules, update_saved s) depth 8

  response_processed :
      (m : Message) (kid : Bytes) (sent : Message)
      → Keeps P (process_query_response lib tam m kid sent)
  unfolding process_query_response
  response_processed m kid sent = Keeps-if _ _ _ (Keeps-raise _) (
      Keeps-bind _ _ (token_issued s) λ t.
        Keeps-if_some t _ _ (λ b. search (rules, manifests_chosen, update_sent) depth 8)
          (Keeps-raise _))

  responded :
      (m : Message) (kid : Option Bytes) (sent : Option Message)
      → Keeps P (respond lib tam m kid sent)
  unfolding respond
  responded m kid sent = search (rules, response_processed) depth 8

  responded_attested :
      (m : Message) (kid : Option Bytes) (v : Verified lib tam)
      → Keeps P (respond_attested lib tam m kid v)
  unfolding respond_attested
  responded_attested m kid v = search (rules, responded)

  pub query_response_resolved :
      (b : Bytes) (m : Message) (kid : Option Bytes) (sent : Option Message)
      → Keeps P (resolve_query_response lib tam b m kid sent)
  unfolding resolve_query_response
  query_response_resolved b m kid sent =
      search (rules, responded, responded_attested, attestation_generated, payload_verified) depth 8
