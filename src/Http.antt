-- ===== src/Http.antt =====
-- src/network/http: the requests that arrive over HTTP.
pub mod Load
pub mod Unpack
pub mod Client
pub mod Server
