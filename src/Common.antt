-- ===== src/Common.antt =====
-- src/common: what the services share.
pub mod Events
pub mod OperationQueue
pub mod QueueWork
pub mod QueueRuns
pub mod Mutex
pub mod MutexServing
pub mod MutexRuns
pub mod MutexHolders
mod Tests
