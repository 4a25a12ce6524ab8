-- ===== src/Rats.antt =====
-- internal/infra/rats: the choice of a verifier, the SGX quote, the attested claims, and the
-- verifiers.
pub mod Results
pub mod Backend
pub mod Quote
pub mod Claims
pub mod Qvl
pub mod Json
pub mod Response
pub mod Client
pub mod Intel
