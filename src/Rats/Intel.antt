-- ===== src/Rats/Intel.antt =====
-- The verifier over Intel's quote verification library (internal/infra/rats/intel_qvl_*.go), built
-- with the tags `intel_qvl` and `cgo`.
pub mod Collateral
pub mod Library
pub mod Chain
pub mod Certificates
pub mod NextUpdate
pub mod Pcs
pub mod Cache
pub mod Verifier
