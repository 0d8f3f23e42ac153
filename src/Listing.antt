-- ===== src/Listing.antt =====
-- src/blob/persistence/PageWithDelimiter.ts: the pages in which List Blobs answers.
pub mod Page
pub mod Order
pub mod Shows
pub mod Adds
pub mod Taken
pub mod Fill
pub mod Pages
pub mod Blobs
pub mod Strict
pub mod Resume
pub mod Filter
mod Tests
