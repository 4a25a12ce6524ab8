-- ===== src/Tam/Resolver/Transparent.antt =====
-- The cache of the resolver (internal/tam/tam.go).
use attes_tam.Base.{
  ◌≡◌, refl, ap, sym, ◌∙◌, Bool, true, false, Option, none, some, some-injective, [], ◌∷◌, List,
  Bytes, bytes_eq, bytes_eq→eq, if◌then◌else◌,
}
use attes_tam.Exec.{Result, ok, err}
use attes_tam.Rats.Backend.{name_of, verifier_backend_for_attestation_payload_format}
use attes_tam.Rats.Client.{ClientLibrary, ClientConfig}
use attes_tam.Rats.Intel.Verifier.{IntelVerifier}
use attes_tam.Tam.Resolver.{Interface, Cache, empty_cache, new_verifier, made, cached, resolve}

module _ (lib : ClientLibrary) (cfg : ClientConfig) (new_intel : Result IntelVerifier) where
  -- The cache after the resolver was asked for formats.
  abbrev pub after : List Bytes → Cache
  after [] = empty_cache
  after (format ∷ formats) = (resolve lib cfg new_intel format (after formats)).1

  -- What a cache holds is what the constructor returns.
  abbrev Holds : Cache → Type 0
  Holds cache =
      (name : Bytes) (v : Interface)
      → cache name ≡ some v
      → new_verifier lib cfg new_intel name ≡ ok v

  made-Holds :
      (name : Bytes) (cache : Cache) (r : Result Interface)
      → new_verifier lib cfg new_intel name ≡ r
      → Holds cache
      → Holds (made lib cfg new_intel name cache r).1
  made-Holds name cache (err e) q h n w k = h n w k
  made-Holds name cache (ok v) q h n w e = split (bytes_eq n name) refl e
    where
      split :
          (b : Bool)
          → bytes_eq n name ≡ b
          → (if b then some v else cache n) ≡ some w
          → new_verifier lib cfg new_intel n ≡ ok w
      split true p e =
          ap (new_verifier lib cfg new_intel) (bytes_eq→eq n name p)
          ∙ (q ∙ ap (λ x. ok x) (some-injective v w e))
      split false p e = h n w e

  cached-Holds :
      (name : Bytes) (cache : Cache) (o : Option Interface)
      → Holds cache
      → Holds (cached lib cfg new_intel name cache o).1
  cached-Holds name cache (some v) h = h
  cached-Holds name cache none h =
      made-Holds name cache (new_verifier lib cfg new_intel name) refl h

  after-Holds : (formats : List Bytes) → Holds (after formats)
  unfolding resolve
  after-Holds [] = λ name v e. cc
  after-Holds (format ∷ formats) =
      let name = name_of (verifier_backend_for_attestation_payload_format format) in
      cached-Holds name (after formats) (after formats name) (after-Holds formats)

  cached-new :
      (name : Bytes) (cache : Cache) (o : Option Interface)
      → cache name ≡ o
      → Holds cache
      → (cached lib cfg new_intel name cache o).0 ≡ new_verifier lib cfg new_intel name
  cached-new name cache (some v) q h = sym (h name v q)
  cached-new name cache none q h = fresh (new_verifier lib cfg new_intel name)
    where
      fresh : (r : Result Interface) → (made lib cfg new_intel name cache r).0 ≡ r
      fresh (ok v) = refl
      fresh (err e) = refl

-- Whatever formats the resolver was asked for before, it answers as if it made the verifier of the
-- format's backend anew.
pub resolve-new_verifier :
    (lib : ClientLibrary) (cfg : ClientConfig) (new_intel : Result IntelVerifier)
    (formats : List Bytes) (format : Bytes)
    → (resolve lib cfg new_intel format (after lib cfg new_intel formats)).0
      ≡ new_verifier lib cfg new_intel
          (name_of (verifier_backend_for_attestation_payload_format format))
unfolding resolve
resolve-new_verifier lib cfg new_intel formats format =
    let name = name_of (verifier_backend_for_attestation_payload_format format) in
    let cache = after lib cfg new_intel formats in
    cached-new lib cfg new_intel name cache (cache name) refl
      (after-Holds lib cfg new_intel formats)
