-- ===== src/Uops.antt =====
-- Micro-operations of tinymachine-fork/src/uops.rs: what untrusted code may do, and the policy on it.
pub mod Types
pub mod Net
pub mod Subnets
pub mod Policy
pub mod Domains
pub mod Analyzer
pub mod Allow
mod Tests
