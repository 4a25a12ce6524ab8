-- ===== src/Tam/Resolver.antt =====
-- newVerifierResolver of internal/tam/tam.go: a verifier for a payload format, made once for each
-- backend. An IRAVerifier is an interface value: nil, or a pointer, which may be nil itself.
pub mod Transparent
pub mod Unconfigured
use attes_tam.Base.{Bool, true, false, Option, none, some, Bytes, bytes_eq, if◌then◌else◌}
use attes_tam.Exec.{Result, ok, err}
use attes_tam.Rats.Backend.{
  Backend, name_of, verifier_backend_for_attestation_payload_format, new_verifier_for_backend,
}
use attes_tam.Rats.Client.{ClientLibrary, ClientConfig, VerifierClient, new_verifier_client}
use attes_tam.Rats.Intel.Verifier.{IntelVerifier}

pub data Interface : Type 0 where
  nil : Interface
  client : Option VerifierClient → Interface
  intel : IntelVerifier → Interface

-- `verifier == nil`
abbrev pub is_nil : Interface → Bool
is_nil nil = true
is_nil (client _) = false
is_nil (intel _) = false

-- The conversion of a *VerifierClient and an error to the results of NewVerifierForBackend.
abbrev pub client_result : Result (Option VerifierClient) → Result Interface
client_result (ok p) = ok (client p)
client_result (err e) = err e

abbrev pub intel_result : Result IntelVerifier → Result Interface
intel_result (ok v) = ok (intel v)
intel_result (err e) = err e

-- The map `cache`, from the names of backends.
abbrev pub Cache : Type 0
Cache = Bytes → Option Interface

abbrev pub empty_cache : Cache
empty_cache name = none

abbrev pub cache_with : Bytes → Interface → Cache → Cache
cache_with name v cache n = if bytes_eq n name then some v else cache n

-- `new_intel` is what NewIntelQVLVerifier returns.
module _ (lib : ClientLibrary) (cfg : ClientConfig) (new_intel : Result IntelVerifier) where
  unfoldable pub new_verifier : Bytes → Result Interface
  unfolding new_verifier_for_backend new_verifier_client
  new_verifier name =
      new_verifier_for_backend (client_result (new_verifier_client lib cfg))
        (intel_result new_intel) name

  abbrev pub made : Bytes → Cache → Result Interface → Result Interface × Cache
  made name cache (err e) = (err e, cache)
  made name cache (ok v) = (ok v, cache_with name v cache)

  abbrev pub cached : Bytes → Cache → Option Interface → Result Interface × Cache
  cached name cache (some v) = (ok v, cache)
  cached name cache none = made name cache (new_verifier name)

  unfoldable pub resolve : Bytes → Cache → Result Interface × Cache
  unfolding verifier_backend_for_attestation_payload_format new_verifier bytes_eq
  resolve format cache =
      let name = name_of (verifier_backend_for_attestation_payload_format format) in
      cached name cache (cache name)
