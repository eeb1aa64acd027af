-- ===== src/Cmdline.antt =====
-- tinymachine-config/src/cmdline.rs: configuration from the kernel's command line.
pub mod Lexer
pub mod Config
pub mod Print
pub mod Closed
pub mod Plain
pub mod Parts
mod Stored
pub mod RoundTrip
mod Tests
