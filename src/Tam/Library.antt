-- ===== src/Tam/Library.antt =====
-- What the TAM uses and this repository does not implement: go-cose, fxamacker/cbor, eat, SHA-384
-- and the verifiers behind IRAVerifier; and the TAM record of internal/tam/tam.go over it.
use attes_tam.Base.{Bool, Option, Bytes}
use attes_tam.Exec.{Result}
use attes_tam.Teep.Message.{Codec, ComponentId}
use attes_tam.Teep.Report.{Report, Digest}
use attes_tam.Rats.Claims.{ProcessedAttestation, Eat}

-- A decoded cose.Sign1Message: its payload, the value of header 4 (`kid`) in the unprotected header
-- if that is a byte string, and the bytes it was decoded from, which its signature is over.
pub record Sign1 : Type 0 where
  pub payload : Bytes
  pub kid_header : Option Bytes
  pub raw : Bytes

-- A function returns `none` where the library returns an error. A `Key` is a cose.Key.
pub record Library (Key : Type 0) : Type 0 where
  pub codec : Codec
  pub decode_sign1 : Bytes → Option Sign1
  -- the key has an algorithm, a public key, and a cose.Verifier
  pub has_verifier : Key → Bool
  pub verifies : Key → Sign1 → Bool
  -- `none` if the bytes are no COSE_Sign message
  pub verifies_sign : Key → Bytes → Option Bool
  -- COSESign1Sign's calls: Signer, AlgorithmOrDefault, Thumbprint and Sign1
  pub sign : Key → Bytes → Option Bytes
  pub thumbprint : Key → Option Bytes
  pub encode_key : Key → Option Bytes
  pub decode_key : Bytes → Option Key
  -- cose.NewKeyEC2 for ESP256
  pub new_key_ec2 : Bytes → Bytes → Option Key
  pub decode_eat : Bytes → Option (Eat Key)
  pub decode_bundle : Bytes → Option (Bytes × Bytes)
  pub sha384 : Bytes → Bytes
  pub decode_report : Bytes → Option Report
  pub encode_digest : Digest → Option Bytes
  pub encode_component : ComponentId → Option Bytes

-- IRAVerifier.Process
abbrev pub Verifier : Type 0 → Type 0
Verifier Key = Bytes → Option (ProcessedAttestation Key)

-- TAM, without its logger, database and context. `resolve_verifier` may be nil, and so may the
-- verifiers.
pub record Tam (Key : Type 0) : Type 0 where
  pub resolve_verifier : Option (Bytes → Result (Option (Verifier Key)))
  pub verifier : Option (Verifier Key)
  pub tam_key : Key
