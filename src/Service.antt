-- ===== src/Service.antt =====
-- src/service: the search service over an index of structo.
pub mod Zip
pub mod Store
pub mod Search
