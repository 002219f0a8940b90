-- ===== src/Setup.antt =====
-- The start of the server: src/netServer.cpp, and in the children src/service/structo-create.cpp.
pub mod Structo
pub mod Program
pub mod Served
use palmira.Prelude.{
  ℕ, ◌^◌, Bool, true, false, ◌&&◌, List, [], ◌∷◌, Option, none, some, ltb, if◌then◌else◌, Result,
  ok, err, Exception, ◌>>=◌,
}
use palmira.Prelude.Int.{ℤ, pos, negsuc}
use palmira.Values.{Bytes, bytes_of, Zval, Zmap, z_charstr, z_zmap}
use palmira.Document.{same_bytes}

-- mtc::config, as the code reads it: a value of `to_zmap()`, a section, the test for an empty one, and values
-- with a default.
pub record ConfigLib (C : Type 0) : Type 0 where
  pub get : C → Bytes → Option Zval
  pub get_section : C → Bytes → C
  pub section_of : C → Zmap → C
  pub is_empty : C → Bool
  pub get_charstr : C → Bytes → Bytes
  pub get_path : C → Bytes → Bytes
  pub get_int32 : C → Bytes → ℤ → ℤ

-- What CreateInetServer gives.
pub data InetServer : Type 0 where
  http_server grpc_server : (port : ℕ) → InetServer

-- `dwport > 0 && uint16_t(dwport) == dwport`
unfoldable pub port_in_range : ℤ → Option ℕ
port_in_range (pos n) = if ltb 0 n && ltb n (2 ^ 16) then some n else none
port_in_range (negsuc n) = none

module _ {C : Type 0} (lib : ConfigLib C) (grpc_enabled : Bool) where
  -- CreateHttpServer
  unfoldable pub create_http_server : C → Result InetServer
  unfolding port_in_range
  create_http_server cfg = elim (port_in_range (lib.get_int32 cfg (bytes_of "port") (negsuc 0))) [
    | some port ↦ ok (http_server port)
    | none ↦ err (Exception.invalid_argument "http 'port' has to be uint16")
  ]

  -- CreateGrpcServer, in a build with gRPC or without.
  unfoldable pub create_grpc_server : C → Result InetServer
  unfolding port_in_range
  create_grpc_server cfg =
      if grpc_enabled
      then elim (port_in_range (lib.get_int32 cfg (bytes_of "port") (negsuc 0))) [
        | some port ↦ ok (grpc_server port)
        | none ↦ err (Exception.invalid_argument "gRPC 'port' has to be uint16")
      ]
      else err (Exception.invalid_argument "gRPC is not enabled in the build")

  -- The section that "api" points to; `empty` is that of `mtc::config()`.
  unfoldable pub api_section : (empty : C) → C → Zval → Result C
  api_section empty cfg (z_charstr key) = elim (lib.get cfg key) [
    | none ↦ err (Exception.invalid_argument "could not find configuration key")
    | some v ↦ elim v [
      | z_zmap m ↦ ok (lib.get_section cfg key)
      | _ ↦ err (Exception.invalid_argument "has to point to section")
    ]
  ]
  api_section empty cfg (z_zmap m) = ok (lib.get_section cfg (bytes_of "api"))
  api_section empty cfg _ = ok empty

  -- The server by the type of a section.
  unfoldable pub typed_server : C → Result InetServer
  unfolding create_http_server create_grpc_server same_bytes
  typed_server section =
      if lib.is_empty section
      then err (Exception.invalid_argument "empty configuration section pointed by 'api'")
      else if same_bytes (lib.get_charstr section (bytes_of "type")) (bytes_of "http")
      then create_http_server section
      else if same_bytes (lib.get_charstr section (bytes_of "type")) (bytes_of "gRPC")
      then create_grpc_server section
      else if same_bytes (lib.get_charstr section (bytes_of "type")) []
      then err (Exception.invalid_argument "'api' section has no 'type' key")
      else err (Exception.invalid_argument "unknown api type")

  -- CreateInetServer
  unfoldable pub create_inet_server : (empty : C) → C → Result InetServer
  unfolding api_section typed_server
  create_inet_server empty cfg = elim (lib.get cfg (bytes_of "api")) [
    | none ↦ err (
        Exception.invalid_argument
          "'api' key has to point to a section or section name for network interface")
    | some v ↦ api_section empty cfg v >>= typed_server
  ]
