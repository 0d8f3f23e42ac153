-- ===== src/Gc.antt =====
-- src/blob/gc and src/queue/gc: mark and sweep of the extents that nothing refers to.
pub mod Iterators
pub mod Paging
pub mod Manager
pub mod Sweep
mod Tests
