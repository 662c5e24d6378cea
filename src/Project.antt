-- ===== src/Project.antt =====
-- src/project: the file dg.json of a project, and which of its entries are trusted.
pub mod DgFile
pub mod OverrideTrust
