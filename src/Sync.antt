-- ===== src/Sync.antt =====
-- pkg/iproto/syncutil: helpers for tasks that run at the same time.
pub mod Multitask
pub mod Runner
pub mod Tasks
pub mod Throttle
