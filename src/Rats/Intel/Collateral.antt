-- ===== src/Rats/Intel/Collateral.antt =====
-- intelQVLQuoteCollateral of internal/infra/rats/intel_qvl_pcs.go and its cache entry
-- (intel_qvl_collateral.go).
use attes_tam.Base.{ℕ, Option, Bytes}
use attes_tam.Model.{Time}

pub record Collateral : Type 0 where
  pub major_version : ℕ
  pub minor_version : ℕ
  pub tee_type : ℕ
  pub pck_crl_issuer_chain : Bytes
  pub root_ca_crl : Bytes
  pub pck_crl : Bytes
  pub tcb_info_issuer_chain : Bytes
  pub tcb_info : Bytes
  pub qe_identity_issuer_chain : Bytes
  pub qe_identity : Bytes

pub record CacheEntry : Type 0 where
  pub expires_at : Time
  pub collateral : Option Collateral
