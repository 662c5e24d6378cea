-- ===== src/Scripts.antt =====
-- src/scripts: what a project lets the install scripts of its packages do.
pub mod Gate
