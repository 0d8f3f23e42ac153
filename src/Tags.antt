-- ===== src/Tags.antt =====
-- src/blob/persistence/QueryInterpreter: the query language of blob tags, which x-ms-if-tags
-- conditions and Find Blobs by Tags use.
pub mod Model
pub mod Scanner
pub mod Tokens
pub mod Comparisons
pub mod Parser
pub mod Evaluate
pub mod Query
pub mod Meaning
pub mod Consumed
pub mod Ranges
pub mod Visits
pub mod Enough
pub mod Sound
pub mod Answers
pub mod Printer
pub mod Characters
pub mod Leaves
pub mod Reading
pub mod RoundTrip
mod Tests
