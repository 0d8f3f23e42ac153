-- ===== src/PageRanges.antt =====
-- src/blob/handlers/PageBlobRangesManager.ts: the ranges of a page blob that hold data.
pub mod Model
pub mod Search
pub mod Manager
pub mod Scan
pub mod Find
pub mod Passes
pub mod Reference
pub mod Content
pub mod Middle
pub mod Cut
pub mod Fill
pub mod History
mod Tests
