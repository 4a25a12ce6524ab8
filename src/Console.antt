-- ===== src/Console.antt =====
-- cmd/admin-console: the console that shows what the TAM's HTTP interface tells.
pub mod Api
pub mod Devices
pub mod Handlers
