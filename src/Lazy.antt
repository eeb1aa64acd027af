-- ===== src/Lazy.antt =====
-- `LazyFork` of tinymachine-fork/src/lazy.rs: a queue of snippets that run in batches on VMs of the pool
-- manager. Forking is a parameter as in the pools; so are running a snippet in a VM, with panics as errors,
-- and the estimate of its memory. The threads of a batch have a VM each, so they run here one after another.
pub mod Config
pub mod Chunks
pub mod Realize
pub mod Slots
pub mod Steps
pub mod Fifo
pub mod Failures
pub mod Settled
mod Tests
