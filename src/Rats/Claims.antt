-- ===== src/Rats/Claims.antt =====
-- internal/infra/rats/attested_claims.go and the part of ProcessedAttestation
-- (internal/infra/rats/attest_response.go) that the TAM reads.
use attes_tam.Base.{Bool, Option, none, some, List, [], ◌∷◌, Bytes, if◌then◌else◌}
use attes_tam.Model.{other}
use attes_tam.Exec.{Result, ok, err}

pub record ProcessedAttestation (Key : Type 0) : Type 0 where
  pub ear_status : Bytes
  pub attestation_nonce : Option Bytes
  pub attestation_ueid : Option Bytes
  pub attestation_key : Option Key

-- What the package eat decodes: each claim with whether its Validate accepts it.
pub record Nonce : Type 0 where
  pub is_valid : Bool
  pub values : List Bytes

pub record Ueid : Type 0 where
  pub is_valid : Bool
  pub value : Bytes

pub record Eat (Key : Type 0) : Type 0 where
  pub nonce : Option Nonce
  pub cnf_key : Option Key
  pub ueid : Option Ueid

module _ {Key : Type 0} where
  abbrev pub with_ueid : Option Ueid → ProcessedAttestation Key → ProcessedAttestation Key
  with_ueid none result = result
  with_ueid (some u) result =
      if u.is_valid then record result { attestation_ueid = some u.value } else result

  abbrev pub with_key :
      Option Key
      → Bytes
      → Option Ueid
      → ProcessedAttestation Key
      → Result (ProcessedAttestation Key)
  with_key none nonce ueid result = err other
  with_key (some key) nonce ueid result = ok (
      with_ueid ueid (record result { attestation_nonce = some nonce; attestation_key = some key }))

  -- Nonce.Len() != 1, and Nonce.GetI(0)
  abbrev pub with_nonce :
      List Bytes → Eat Key → ProcessedAttestation Key → Result (ProcessedAttestation Key)
  with_nonce (n ∷ []) evidence result = with_key evidence.cnf_key n evidence.ueid result
  with_nonce _ evidence result = err other

  abbrev pub checked_nonce :
      Option Nonce → Eat Key → ProcessedAttestation Key → Result (ProcessedAttestation Key)
  checked_nonce none evidence result = err other
  checked_nonce (some n) evidence result =
      if n.is_valid then with_nonce n.values evidence result else err other

  -- attachAttestedClaims
  unfoldable pub attach_attested_claims :
      Eat Key → ProcessedAttestation Key → Result (ProcessedAttestation Key)
  attach_attested_claims evidence result = checked_nonce evidence.nonce evidence result

  -- PopulateAttestedClaimsFromEAT, after what the package eat makes of the bytes
  unfoldable pub populate_from_eat :
      Option (Eat Key) → ProcessedAttestation Key → Result (ProcessedAttestation Key)
  unfolding attach_attested_claims
  populate_from_eat none result = err other
  populate_from_eat (some evidence) result = attach_attested_claims evidence result
