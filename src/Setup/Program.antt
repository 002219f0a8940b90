-- ===== src/Setup/Program.antt =====
-- src/palmira.cpp: the program, from its arguments to what it returns.
pub mod Ends
use palmira.Prelude.{
  Bool, true, false, List, [], ◌∷◌, Option, none, some, if◌then◌else◌, Result, ok, err, Exception,
}
use palmira.Values.{Bytes, bytes_of}
use palmira.Setup.{ConfigLib, InetServer, create_inet_server}

-- What `config.Open` gives or throws.
pub data Opened (C : Type 0) : Type 0 where
  config_of : C → Opened C
  config_error json_error other_error : Opened C

-- How main ends: with 0, with EINVAL, with the number of characters that `fprintf` has printed, or by an exception that nothing
-- catches.
pub data Exit : Type 0 where
  zero_code einval_code printed : Exit
  terminated : Exception → Exit

-- What has been done by then.
pub data Done : Type 0 where
  served waited committed : Done

-- `catch ( const std::invalid_argument& xp )`
unfoldable pub refused : Exception → Exit
refused (Exception.invalid_argument what) = einval_code
refused e = terminated e

-- The server's Start and Wait, and the service's Commit.
module _ {I : Type 0} (start_server wait_server : InetServer → Result (Unit {0}))
    (commit_service : I → Result (Unit {0})) where
  -- After the signals are set.
  unfoldable pub serve : I → InetServer → Exit × List Done
  serve search server = elim (start_server server) [
    | err e ↦ (terminated e, [])
    | ok _ ↦ elim (wait_server server) [
      | err e ↦ (terminated e, served ∷ [])
      | ok _ ↦ elim (commit_service search) [
        | err e ↦ (terminated e, served ∷ waited ∷ [])
        | ok _ ↦ (zero_code, served ∷ waited ∷ committed ∷ [])
      ]
    ]
  ]

-- The library of configurations and CreateStructo.
module _ {C I : Type 0} (lib : ConfigLib C) (grpc_enabled : Bool) (empty : C)
    (create_structo : C → Result (Option I))
    (start_server wait_server : InetServer → Result (Unit {0}))
    (commit_service : I → Result (Unit {0})) where
  -- The server's creation.
  unfoldable pub with_service : C → I → Exit × List Done
  unfolding serve refused create_inet_server
  with_service config search = elim (create_inet_server lib grpc_enabled empty config) [
    | err e ↦ (refused e, [])
    | ok server ↦ serve start_server wait_server commit_service search server
  ]

  -- The service's.
  unfoldable pub with_config : C → Exit × List Done
  unfolding with_service refused
  with_config config =
      if lib.is_empty (lib.get_section config (bytes_of "service"))
      then (printed, [])
      else elim (create_structo (lib.get_section config (bytes_of "service"))) [
        | err e ↦ (refused e, [])
        | ok none ↦
            (terminated (Exception.logic_error "unexpected OpenSearch(...) result 'nullptr'"), [])
        | ok (some search) ↦ with_service config search
      ]

  -- main
  unfoldable pub main : (open_config : Bytes → Opened C) → (argv : List Bytes) → Exit × List Done
  unfolding with_config
  main open_config [] = (einval_code, [])
  main open_config (name ∷ []) = (einval_code, [])
  main open_config (name ∷ file ∷ more) = elim (open_config file) [
    | config_of config ↦ with_config config
    | config_error ↦ (printed, [])
    | json_error ↦ (printed, [])
    | other_error ↦ (printed, [])
  ]
