-- ===== src/Boot.antt =====
-- The guest's memory at boot: tinymachine-fork/src/arch/x86_64/boot.rs, with the addresses of layout.rs.
pub mod Memory
pub mod Load
pub mod Tables
mod Tests
