-- ===== src/Launcher.antt =====
-- src/launcher: what runs when a package manager is started under `dg`.
pub mod Classify
pub mod InstallPreflight
pub mod OutputRedaction
