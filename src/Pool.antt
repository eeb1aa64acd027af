-- ===== src/Pool.antt =====
-- tinymachine-fork/src/pool.rs and `ForkEngine::fork_batch` of tinymachine-fork/src/fork.rs.
-- One `fork` is a run of KVM calls whose outcome the host decides: it is the parameter `fork`, which
-- takes an engine and the host's state. `ForkedVm`, its error and the host are parameters with it.
pub mod Config
pub mod Fork
pub mod Manager
pub mod FreshBoot
mod Tests
