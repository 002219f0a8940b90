-- ===== src/Zip.antt =====
-- src/objects/read-zip.cpp: reading of archives within archives.
pub mod Stream
pub mod Archive
