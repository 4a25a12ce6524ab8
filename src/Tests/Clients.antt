-- ===== src/Tests/Clients.antt =====
-- The theorems on the verifier client and the resolver applied to runs.
use attes_tam.Base.{◌*◌, ◌≡◌, refl, true, false, Option, none, some, [], ◌∷◌, ◌++◌, Bytes}
use attes_tam.Model.{second, other}
use attes_tam.Exec.{ok, err}
use attes_tam.Text.{text}
use attes_tam.Rats.Json
use attes_tam.Rats.Json.{empty, field, object}
use attes_tam.Rats.Backend.{veraison, name_of}
use attes_tam.Rats.Response.{DecodedResponse, affirming_artifact}
use attes_tam.Rats.Client.{ClientLibrary, ClientConfig, VerifierClient, panics, process_at}
use attes_tam.Rats.Client.Sound.{IsReported, process-IsReported}
use attes_tam.Tam.Resolver.{Interface, client, is_nil, new_verifier, resolve}
use attes_tam.Tam.Resolver.Transparent.{after, resolve-new_verifier}
use attes_tam.Tam.Resolver.Unconfigured.{resolve-is_not_nil}
use attes_tam.Tests.Everything.{everything}

abbrev client_library : ClientLibrary
client_library = record {
  responses = record {
    decode_response = λ _.
        some (record { status = text "complete"; evidence = text "AA"; result = text "AA.AA.AA" });
    base64_std = λ _. none;
    base64_raw_std = λ b. some b;
    base64_url = λ _. none;
    base64_raw_url = λ b. some b;
    render_cbor = λ b. some b;
    render_json = λ b. some b;
    decode_object = λ _. some (
        field (text "submods")
          (object (
            field (text "GENERIC_EAT")
              (object (field (text "ear.status") (Json.string (text " affirming")) empty)) empty))
          empty);
  };
  parse_url = λ b. some b;
  is_https = λ _. true;
  resolve = λ base reference. some (base ++ reference);
  with_nonce = λ nonce url. url;
  post = λ r. some (record { status_code = 201; location = text "/1"; body = some r.body });
}

abbrev session_client : VerifierClient
session_client = record {
  base_url = text "https://localhost:8443";
  content_type = [];
  timeout = 60 * second;
  skips_verification = true;
}

abbrev decoded : DecodedResponse
decoded = record {
  response = record { status = text "complete"; evidence = text "AA"; result = text "AA.AA.AA" };
  send_update = true;
  selection = record {
    artifact = some affirming_artifact;
    status = text "affirming";
    failed = false;
  };
}

process-IsReported_example : IsReported client_library session_client (1 ∷ []) decoded
unfolding everything
process-IsReported_example =
    process-IsReported client_library session_client (1 ∷ []) decoded refl refl

-- No URL of a verifier is given.
abbrev unconfigured : ClientConfig
unconfigured = record { base_url = []; content_type = []; insecure_tls = true; timeout = 0 }

abbrev eat : Bytes
eat = text "application/eat+cwt"

resolve-new_verifier_example :
    (resolve client_library unconfigured
      (err other)
      eat
      (after client_library unconfigured (err other) (eat ∷ []))).0
    ≡ new_verifier client_library unconfigured (err other) (name_of veraison)
unfolding everything
resolve-new_verifier_example =
    resolve-new_verifier client_library unconfigured (err other) (eat ∷ []) eat

resolve-is_not_nil_example :
    (v : Interface) × (((resolve client_library unconfigured
          (err other)
          eat
          (after client_library unconfigured (err other) (eat ∷ []))).0
        ≡ ok v)
      × ((is_nil v ≡ false)
          × ((p : Option VerifierClient) × ((v ≡ client p)
                × (process_at client_library p (1 ∷ []) ≡ panics)))))
unfolding everything
resolve-is_not_nil_example =
    resolve-is_not_nil client_library unconfigured (err other) (eat ∷ []) eat (1 ∷ []) refl refl
