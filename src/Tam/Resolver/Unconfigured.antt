-- ===== src/Tam/Resolver/Unconfigured.antt =====
-- The resolver where no verifier is configured (internal/tam/tam.go).
use attes_tam.Base.{◌≡◌, refl, ap, ◌∙◌, false, Option, none, [], ◌∷◌, List, Bytes, bytes_eq}
use attes_tam.Model.{other}
use attes_tam.Exec.{Result, ok, err}
use attes_tam.Text.{to_lower}
use attes_tam.Rats.Backend.{
  veraison, name_of, verifier_backend_for_attestation_payload_format, new_verifier_for_backend,
}
use attes_tam.Rats.Client.{
  ClientLibrary, ClientConfig, VerifierClient, Called, returns, panics, new_verifier_client,
  process_at,
}
use attes_tam.Rats.Response.{DecodedResponse}
use attes_tam.Rats.Intel.Verifier.{IntelVerifier}
use attes_tam.Tam.Resolver.{Interface, client, is_nil, new_verifier, resolve}
use attes_tam.Tam.Resolver.Transparent.{after, resolve-new_verifier}

unconfigured :
    (lib : ClientLibrary) (cfg : ClientConfig) (new_intel : Result IntelVerifier)
    → cfg.base_url ≡ []
    → new_verifier lib cfg new_intel (name_of veraison) ≡ ok (client none)
unfolding new_verifier new_verifier_for_backend new_verifier_client bytes_eq to_lower
unconfigured lib cfg new_intel e = rw e refl

-- What Process does without a receiver.
abbrev pub without_receiver : Bytes → Called (Result DecodedResponse)
without_receiver [] = returns (err other)
without_receiver (b ∷ payload) = panics

process_at-none :
    (lib : ClientLibrary) (payload : Bytes) → process_at lib none payload ≡ without_receiver payload
unfolding process_at
process_at-none lib [] = refl
process_at-none lib (b ∷ payload) = refl

-- If there is no base URL, then whatever formats came before, the resolver returns for a format of
-- the Veraison backend an interface that is not nil, around a pointer, so that the test for a verifier
-- that is not configured passes; and Process on that pointer panics if the payload is not empty, and
-- returns an error if it is.
pub resolve-is_not_nil :
    (lib : ClientLibrary) (cfg : ClientConfig) (new_intel : Result IntelVerifier)
    (formats : List Bytes) (format payload : Bytes)
    → cfg.base_url ≡ []
    → verifier_backend_for_attestation_payload_format format ≡ veraison
    → (v : Interface) × (((resolve lib cfg new_intel format (after lib cfg new_intel formats)).0
          ≡ ok v)
        × ((is_nil v ≡ false)
            × ((p : Option VerifierClient) × ((v ≡ client p)
                  × (process_at lib p payload ≡ without_receiver payload)))))
resolve-is_not_nil lib cfg new_intel formats format payload none_given format_of = (
  client none,
  (
    resolve-new_verifier lib cfg new_intel formats format
        ∙ (ap (λ b. new_verifier lib cfg new_intel (name_of b)) format_of
            ∙ unconfigured lib cfg new_intel none_given),
    (refl, (none, (refl, process_at-none lib payload))),
  ),
)
