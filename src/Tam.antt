-- ===== src/Tam.antt =====
-- internal/tam: the Trusted Application Manager.
pub mod Library
pub mod Bundle
pub mod Keyring
pub mod Sent
pub mod Authenticate
pub mod Attest
pub mod Resolver
pub mod Update
pub mod Resolve
pub mod Repository
pub mod Status
pub mod Stable
pub mod Lasting
pub mod Known
pub mod Replay
pub mod Challenged
pub mod Revoked
pub mod System
pub mod Frames
pub mod Single
pub mod Seed
pub mod Construct
