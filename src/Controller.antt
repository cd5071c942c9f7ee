-- ===== src/Controller.antt =====
-- The PackageRevision controller, controllers/packagerevisions/pkg/controllers/packagerevision.
pub mod Labels
pub mod Latest
pub mod Relabelling
pub mod Ownership
pub mod Owned
pub mod Deletion
pub mod Cascade
