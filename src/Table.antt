-- ===== src/Table.antt =====
-- src/table: the entities of a table, the store that keeps them, and batches of operations.
pub mod Entities
pub mod Database
pub mod Store
pub mod Writes
pub mod Transactions
pub mod Batch
pub mod Spec
pub mod Position
pub mod Rows
pub mod Refinement
pub mod Operations
pub mod Undo
pub mod Recorded
pub mod Rollback
pub mod BatchSpec
pub mod BatchRecorded
pub mod Claims
pub mod Routes
pub mod Loop
pub mod Atomicity
pub mod Merge
mod Tests
