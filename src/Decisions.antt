-- ===== src/Decisions.antt =====
-- src/decisions: the warnings that a project has accepted.
pub mod Fingerprint
pub mod Match
pub mod Apply
