-- ===== src/State.antt =====
-- src/state: the files that processes of dg share: locks, and the list of held packages.
pub mod Locks
pub mod CooldownHeld
