-- ===== src/Ir.antt =====
-- The crate tinymachine-ir: the tree that language frontends build and the walk that the analyses
-- override.
pub mod Types
pub mod Build
pub mod Visits
pub mod Walk
mod Tests
