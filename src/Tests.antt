-- ===== src/Tests.antt =====
-- Runs of the model on concrete inputs, and each theorem at an input that meets its hypotheses.
pub mod Policy
pub mod Launcher
pub mod Proxy
mod State
mod BufferBudget
mod Decisions
mod Scripts
mod Config
mod CooldownHeld
mod Api
mod Trust
mod Preflight
mod DgFile
mod Redaction
