-- ===== src/Tests/Worlds.antt =====
-- The databases and messages of the runs.
use attes_tam.Base.{ℕ, false, none, some, [], ◌∷◌, ◌++◌, Bytes, replicate}
use attes_tam.Model.{SuitManifest, Holding, zero_time}
use attes_tam.Exec.{World}
use attes_tam.Text.{text}
use attes_tam.Sqlite.Parties.{create_signing_key}
use attes_tam.Teep.Message.{
  query_request, query_response, success, error, no_options, Message, message,
}
use attes_tam.Rats.Claims.{ProcessedAttestation}
use attes_tam.Tam.Library.{Library}
use attes_tam.Tam.Keyring.{set_teep_agent_key, revoke_teep_agent_key}
use attes_tam.Tam.Sent.{
  search_sent_message_with_token, search_sent_message_with_challenge, generate_query_request,
  generate_query_request_with_attestation,
}
use attes_tam.Tam.Attest.{Verified}
use attes_tam.Tam.Resolve.{resolve_teep_message}
use attes_tam.Tam.Repository.{set_envelope}
use attes_tam.Base.{true, replicate}
use attes_tam.Text.{text}
use attes_tam.Suit.{SuitLibrary, KidHeader}
use attes_tam.Server.{Request, ServerCodec}
use attes_tam.Tam.Sent.{cose_algorithm_sha256}
use attes_tam.Tests.Setup.{encode_array, library, tam, world, start_world, agent_kid, signer}

-- The first bytes that crypto/rand delivers.
abbrev pub first : Bytes
first = 1 ∷ 2 ∷ []

abbrev pub second : Bytes
second = 7 ∷ 7 ∷ []

-- A query with the token `first` was sent; it was answered; the agent connects again.
abbrev pub asked : World
asked = world (generate_query_request library tam start_world).1.db

abbrev pub found : Message
found = record (message query_request (record no_options { token = some first })) {
  data_item_requested = 2;
}

abbrev pub answered : World
answered = world (search_sent_message_with_token (some first) asked).1.db

abbrev pub asked_again : World
asked_again = (resolve_teep_message library tam [] answered).1

-- The same with a challenge.
abbrev pub challenged : World
challenged = world (generate_query_request_with_attestation library tam start_world).1.db

abbrev pub found_challenge : Message
found_challenge = record (message query_request (record no_options { challenge = some first })) {
  data_item_requested = 1;
}

abbrev pub met : World
met = world (search_sent_message_with_challenge (some first) challenged).1.db

abbrev pub met_again : World
met_again = (resolve_teep_message library tam [] met).1

-- A key is trusted, and a component gets two versions.
abbrev pub component : Bytes
component = 7 ∷ []

abbrev pub trusting : World
trusting = world (create_signing_key signer start_world).1.db

abbrev pub first_version : World
first_version =
    world (set_envelope (some (50 ∷ [])) (60 ∷ []) (replicate 32 9) component 1 trusting).1.db

abbrev pub second_version : World
second_version =
    world (set_envelope (some (51 ∷ [])) (61 ∷ []) (replicate 32 9) component 2 first_version).1.db

abbrev pub second_manifest : SuitManifest
second_manifest = record {
  id = 2;
  manifest = 51 ∷ [];
  digest = 61 ∷ [];
  signing_key_id = 1;
  trusted_component_id = component;
  sequence_number = 2;
  created_at = zero_time;
}

-- An agent is known.
abbrev pub acquainted : World
acquainted = world (set_teep_agent_key library (some agent_kid) none second_version).1.db

abbrev pub dismissed : World
dismissed = world (revoke_teep_agent_key agent_kid acquainted).1.db

abbrev pub asked_later : World
asked_later = (resolve_teep_message library tam [] dismissed).1

abbrev pub success_bytes : Bytes
success_bytes = agent_kid ++ encode_array ((5 ∷ []) ∷ first ∷ [])

abbrev pub success_message : Message
success_message = message success (record no_options { token = some first })

-- An agent that is not known answers the challenge with evidence on its key.
abbrev pub evidence : Bytes
evidence = replicate 32 3 ++ first

abbrev pub attesting : Message
attesting = message query_response (record no_options {
  attestation_payload = some evidence;
  attestation_payload_format = some (text "application/eat+cwt");
})

abbrev pub verified : Verified library tam
verified = record {
  result = record {
    ear_status = text "affirming";
    attestation_nonce = some first;
    attestation_ueid = none;
    attestation_key = some agent_kid;
  };
  agent_kid = some agent_kid;
  sent = some found_challenge;
}

-- An Error message with a report of a failure.
abbrev pub error_message : Message
error_message = message error (record no_options { suit_reports = (4 ∷ []) ∷ [] })

-- Two agents hold the component; the second got it later.
abbrev pub held : ℕ → ℕ → ℕ → Holding
held i agent at = record {
  id = i;
  agent_id = agent;
  suit_manifest_id = 2;
  created_at = at;
  deleted = false;
}

abbrev pub quote : Bytes
quote = 3 ∷ 0 ∷ replicate 434 1

-- 64 bytes for the coordinates of a key, then a nonce of one byte, and the quote of them.
abbrev pub raw_report_data : Bytes
raw_report_data = replicate 64 7 ++ 9 ∷ []

abbrev pub bound_quote : Bytes
bound_quote = 3 ∷ 0 ∷ (replicate 366 1 ++ (replicate 48 7 ++ replicate 20 0))

-- The library, of which every payload is the bundle of these.
abbrev pub sgx_library : Library Bytes
sgx_library = record library { decode_bundle = λ _. some (bound_quote, raw_report_data) }

abbrev pub affirmed : ProcessedAttestation Bytes
affirmed = record {
  ear_status = text "affirming";
  attestation_nonce = none;
  attestation_ueid = none;
  attestation_key = none;
}

abbrev pub no_expiration : ℕ
no_expiration = 0

-- Of an envelope everything is read from the same bytes.
abbrev pub suit_library : SuitLibrary Bytes
suit_library = record {
  decode_map = λ b. some (some b, some b);
  decode_bytes = λ b. some b;
  decode_array = λ b. some (b ∷ b ∷ []);
  decode_digest = λ b. some (record { digest_alg = cose_algorithm_sha256; digest_bytes = b });
  decode_block = λ b. some (record {
    protected_kid = KidHeader.absent;
    unprotected_kid = KidHeader.bytes (replicate 32 9);
    payload = none;
  });
  decode_manifest =
      λ b. some (record { manifest_sequence_number = 3; components = (component ∷ []) ∷ [] });
  sha256 = λ b. b;
  has_verifier = λ _. true;
  verifies_detached = λ _ _ _. true;
}

abbrev pub registering : Request
registering = record {
  path = text "/SUITManifestService/RegisterManifest";
  method = text "POST";
  accept = [];
  content_type = text "application/suit-envelope+cose";
  body = some (40 ∷ 41 ∷ []);
  body_closes = true;
}

abbrev pub listing : Request
listing = record {
  path = text "/SUITManifestService/ListManifests";
  method = text "GET";
  accept = text "application/cbor";
  content_type = [];
  body = none;
  body_closes = true;
}

abbrev pub server_codec : ServerCodec
server_codec = record {
  encode_manifests = λ _. some (128 ∷ []);
  encode_agents = λ _. some (128 ∷ []);
  encode_statuses = λ _. some (128 ∷ []);
  decode_kids = λ b. some (b ∷ []);
}
