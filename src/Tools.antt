-- ===== src/Tools.antt =====
-- utils/libruseq: the tools that read archives of books and send the books to the service.
pub mod Chunked
pub mod Queue
pub mod Sender
pub mod Indexer
