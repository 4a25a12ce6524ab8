-- ===== src/Tests.antt =====
-- The program run on small databases, and the theorems applied to the runs.
mod Setup
mod Everything
mod Worlds
mod Intel
mod Witnesses
mod Requests
mod Verifiers
mod Clients
mod Holdings
mod Starts
mod Consoles
