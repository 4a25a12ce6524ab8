-- ===== src/Teep/Report.antt =====
-- internal/suit/report.go: the part of a SUIT report that the TAM reads.
use attes_tam.Base.{ℕ, Bool, true, false, Option, none, some, Bytes}
use attes_tam.Base.Int.{ℤ}

-- suit.Digest of internal/suit/manifest.go
pub record Digest : Type 0 where
  pub digest_alg : ℤ
  pub digest_bytes : Bytes

pub record Reference : Type 0 where
  pub manifest_uri : Bytes
  pub digest : Digest

-- The record of the failing step is passed over by the TAM and left out.
pub record DetailedResult : Type 0 where
  pub result_code : ℤ
  pub result_reason : ℕ

pub record TrueOrDetailedResult : Type 0 where
  pub is_true : Option Bool
  pub detailed_result : Option DetailedResult

pub record Report : Type 0 where
  pub reference : Reference
  pub nonce : Option Bytes
  pub result : TrueOrDetailedResult

-- ReportReasonOK
abbrev pub report_reason_ok : ℕ
report_reason_ok = 0

-- TrueOrDetailedResult.UnmarshalCBOR, after what the CBOR library makes of the item as a Boolean
-- and as a detailed result.
unfoldable pub unmarshal_result : Option Bool → Option DetailedResult → Option TrueOrDetailedResult
unmarshal_result (some false) _ = none
unmarshal_result (some true) _ = some (record { is_true = some true; detailed_result = none })
unmarshal_result none (some r) = some (record { is_true = none; detailed_result = some r })
unmarshal_result none none = none
