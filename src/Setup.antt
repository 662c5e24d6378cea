-- ===== src/Setup.antt =====
-- src/setup: the table of gated features. The setup plan itself is not modelled.
pub mod OptionalSupport
