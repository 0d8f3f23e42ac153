-- ===== src/Queue.antt =====
-- src/queue: the messages of queues, the store that keeps them, and the handlers' checks.
pub mod Messages
pub mod Store
pub mod Keys
pub mod Hidden
pub mod Operations
pub mod Visibility
pub mod Protection
pub mod Receipts
pub mod Handlers
pub mod Times
pub mod Requests
mod TestDb
mod Tests
