-- ===== src/Audit.antt =====
-- src/audit: the local audit log. The publish audit itself is not modelled.
pub mod Events
