-- ===== src/Proxy.antt =====
-- src/proxy: the local proxy of one install command.
pub mod Enforcement
pub mod BufferBudget
