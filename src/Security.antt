-- ===== src/Security.antt =====
-- src/security: texts from outside on their way to a terminal.
pub mod Sanitize
