-- ===== src/Conditions.antt =====
-- src/blob/conditions: the conditional headers of a request against the resource that it names.
pub mod Model
pub mod Read
pub mod Write
pub mod Laws
mod Tests
