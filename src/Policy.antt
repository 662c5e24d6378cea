-- ===== src/Policy.antt =====
-- src/policy: what a scanner verdict becomes under the effective policy, and the release-age
-- cooldown.
pub mod Evaluate
pub mod PypiName
pub mod Cooldown
