-- ===== src/Demo.antt =====
-- internal/demo: the data that insecure demo mode seeds.
pub mod Data
pub mod Seed
pub mod Seeded
pub mod Again
pub mod Repeated
