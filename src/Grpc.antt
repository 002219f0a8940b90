-- ===== src/Grpc.antt =====
-- src/network/grpc: the protocol buffers of the gRPC server and client.
pub mod Messages
pub mod Requests
pub mod Texts
pub mod Calls
pub mod Lifetime
