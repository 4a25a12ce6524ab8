-- ===== src/Sqlite.antt =====
-- internal/infra/sqlite: the repositories, one module for each.
pub mod Spent
pub mod Tokens
pub mod Challenges
pub mod Agents
pub mod Parties
pub mod Manifests
pub mod SentQueries
pub mod SentUpdates
pub mod Statuses
pub mod Stable
pub mod Frames
