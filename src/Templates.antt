-- ===== src/Templates.antt =====
-- The dates and the version numbers of templates in tinymachine-fork/src/template_registry.rs.
pub mod Dates
pub mod Calendar
mod Tests
