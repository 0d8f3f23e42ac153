-- ===== src/Extents.antt =====
-- src/common/persistence: the extents that keep the bytes of blobs and messages.
pub mod Chunks
pub mod Sizes
pub mod Runs
pub mod Reads
mod Tests
