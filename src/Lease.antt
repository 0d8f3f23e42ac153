-- ===== src/Lease.antt =====
-- src/blob/lease: the lease state machine of blobs and containers.
pub mod Model
pub mod State
pub mod Available
pub mod Leased
pub mod Breaking
pub mod Broken
pub mod Expired
pub mod Operations
pub mod Sync
pub mod Validators
pub mod Blob
pub mod Container
pub mod Validity
pub mod Factory
pub mod Preservation
pub mod Stored
pub mod Visits
pub mod Protection
pub mod Containers
pub mod ContainerVisits
pub mod Deletion
pub mod Timing
pub mod Ownership
pub mod Diagram
mod Tests
