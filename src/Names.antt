-- ===== src/Names.antt =====
-- Names.
pub mod Paths
pub mod Segments
pub mod Split
pub mod Compose
pub mod Objects
pub mod Ambiguous
