-- ===== src/Collect.antt =====
-- src/service: collecting the documents that a query finds, with their quotes.
pub mod Order
pub mod Quotes
pub mod Documents
pub mod Parallel
pub mod Report
pub mod ByRange
pub mod Waiting
