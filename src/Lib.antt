-- ===== src/Lib.antt =====
-- A verification library for palmira, a document search server in C++.
--
-- The program. A search arrives over HTTP or gRPC, goes through the service, which reads its
-- arguments, asks structo (a library of the index, not part of the repository) for a query, and
-- collects what the query finds. The collector keeps the best documents with an abstract of
-- each, and reports a page of them.
--
-- The files.
-- - Prelude: tests, lists, exceptions as values, signed integers. Sorting: std::sort, and what
--   it is to keep the best so many of a list.
-- - Collect: src/service/collect-docs.cpp and src/service/collect-quotes.cpp, the collector of
--   documents. Order models compareByRange and WrapDifferFn; Quotes the class Abstracts;
--   Documents impl::Search over one query; Parallel impl::Insert and impl::Search over sections;
--   Report impl::Finish; Documents.Builder the settings; Waiting how impl::Search waits for its
--   tasks.
-- - Service: src/service/structo-search.cpp. Zip models ZipBuf and Unpack; Store the operations
--   of StructoSearch that change the index, with its constructor in Store.Opened and the
--   abstract map in Store.History; Search those that read it.
-- - Values: the values of mtc and of the gRPC protocol. Grpc: src/network/grpc/messages.cpp,
--   Messages the conversion of values, Requests that of requests and reports, Texts that of
--   documents. Calls, over src/network/grpc/server.cpp and client.cpp, a change as a call from
--   client to service; Lifetime, of server.cpp, the references to the server and the waiting for
--   it.
-- - Arguments: src/toolset/z-arguments.cpp.
-- - Http: src/network/http. Load models jsload.cpp and zmload.cpp; Unpack unpack.cpp, the
--   compressed bodies; Server server.cpp, the handlers and the routes, and in Server.Stopping
--   its Stop and Wait; Client client.cpp: its requests, and in Address, Answer and Waiter the
--   address, the report out of an answer and the waiting for it. Client.Served puts client and
--   server together.
-- - Document: src/objects/doc-zmap.cpp, documents as maps.
-- - Zip: src/objects/read-zip.cpp, Stream its stream over a buffer and Archive the reading of
--   nested archives.
-- - Watch: src/watchFs/watchFs-nix.cpp, the watching of directories; Windows models
--   watchFs-win.cpp, its adding of a watch and the round for a handle that was signaled.
-- - Setup: src/palmira.cpp, main, in Setup.Program; src/netServer.cpp, the server out of the
--   configuration, and in Setup.Structo the service, src/service/structo-create.cpp.
-- - Plugins: plugins/morpho-ru/morpho-ru.cpp, the choice of lemmas; in Loading
--   src/toolset/plugins.cpp.
-- - Tools: utils/libruseq. Queue and Indexer model local-indexer.cpp, Sender sender.cpp, Chunked
--   chunked-client.cpp.
-- - K2: src/k2.cpp, the walk of IndexDir over the directories, CheckExt and LoadText.
-- - Tests: runs on concrete data.
--
-- The correspondence. A field of a record is the member of the same name. A list stands for an
-- array with its count, a value of `Result` for what a function returns or throws, an `Option`
-- for a pointer that may be null. Numbers of 32 bits wrap where the code lets them. Memory, its
-- allocation and its alignment, are not modelled. Weights are an abstract type with a test for
-- `<`.
--
-- Fuel. `search_loop` has 2^32 rounds, as many as there are document numbers, and `sub_queries`
-- 2^18 + 1, as many as there are sections. `unpack` has a round for each byte of what comes out,
-- and one more; `Zip.Archive.read` one for each level of nesting, and one more; `inflate_loop`
-- one for each byte of what comes out, and one more. The theorems show that these are enough, of
-- `inflate_loop` for bodies that zlib can read to the end.
--
-- Concurrency. Where threads share state, a step relation has one step for each thing that a
-- thread does while it holds the lock, or without a lock each access, and `Reach` is what any
-- order of them leads to: Collect.Waiting, Grpc.Lifetime, Http.Client.Waiter,
-- Http.Server.Stopping, Tools.Queue and Tools.Sender; the steps of Watch.Windows are whole
-- calls, since its code has neither. The tasks of a search run on a pool. Each works on a
-- collector of its own and takes the lock of the shared one to merge. What the wait for them does
-- is a parameter of `search`, `wait`: it says which tasks have merged when it comes back, and in
-- which order, and which still run, or that it never comes back; the theorems ask only that
-- these are the tasks that there are. What tasks do after the
-- search has come back is not modelled. Collect.Waiting is about that wait itself.
--
-- Not modelled. What belongs to other libraries is a parameter: structo's index, query builder
-- and packers, mtc's maps, their serialisation and their conversions of numbers, DeliriX's
-- readers, zlib, minizip, inotify, the HTTP library and the transport of gRPC, the library of
-- morphology, the tables of encodings; what the theorems ask of it stands in a record named for
-- it, such as IsStore, IsCodec, IsLossless, IsSplit, IsInflater, IsCutShort, IsZlib, IsHeaders
-- and IsWire.
-- The start of the HTTP server, the tools' main functions, and the stemming plugins, whose
-- tables are generated, are left out.
pub mod Prelude
pub mod Sorting
pub mod Values
pub mod Collect
pub mod Grpc
pub mod Arguments
pub mod Http
pub mod K2
pub mod Document
pub mod Zip
pub mod Watch
pub mod Tools
pub mod Plugins
pub mod Setup
pub mod Service
mod Tests
