-- ===== src/Teep.antt =====
-- internal/tam/teep_message.go and internal/suit/report.go: the messages of the TEEP Protocol and
-- the SUIT reports in them.
pub mod Message
pub mod Items
pub mod Report
pub mod Roundtrip
