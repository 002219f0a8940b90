-- ===== src/Setup/Program/Ends.antt =====
-- When the program ends well.
use palmira.Prelude.{
  ◌≡◌, ◌↔◌, refl, ap, inl, inr, Bool, false, Bool-cases, List, [], ◌∷◌, Option, none, some, Result,
  Result-cases, ok, Exception,
}
use palmira.Values.{Bytes, bytes_of}
use palmira.Setup.{ConfigLib, InetServer, create_inet_server}
use palmira.Setup.Program.{
  Opened, config_of, Exit, zero_code, Done, served, waited, committed, refused, serve, with_service,
  with_config, main,
}

refused_is_not_zero : (e : Exception) → refused e ≡ zero_code → ⊥
unfolding refused
refused_is_not_zero (Exception.invalid_argument what) h = cc h
refused_is_not_zero (Exception.parse_error what) h = cc h
refused_is_not_zero (Exception.logic_error what) h = cc h
refused_is_not_zero (Exception.runtime_error what) h = cc h
refused_is_not_zero (Exception.range_error what) h = cc h
refused_is_not_zero (Exception.bad_function_call what) h = cc h
refused_is_not_zero Exception.out_of_fuel h = cc h
refused_is_not_zero Exception.undefined h = cc h

module _ {I : Type 0} (start_server wait_server : InetServer → Result (Unit {0}))
    (commit_service : I → Result (Unit {0})) where
  -- The server has run to its end and the service that it served is committed.
  abbrev pub IsServed : I → InetServer → Type 0
  IsServed search server =
      (start_server server ≡ ok tt) × (wait_server server ≡ ok tt) × (commit_service search ≡ ok tt)

  serve-IsServed :
      (search : I) (server : InetServer)
      → (serve start_server wait_server commit_service search server).0 ≡ zero_code
      → IsServed search server
  unfolding serve
  serve-IsServed search server h = elim (Result-cases (start_server server)) [
    | inr (e, a) ↦ absurd (cc (rw (a, serve) at h))
    | inl (t, a) ↦ elim (Result-cases (wait_server server)) [
      | inr (e, b) ↦ absurd (cc (rw (a, b, serve) at h))
      | inl (u, b) ↦ elim (Result-cases (commit_service search)) [
        | inr (e, c) ↦ absurd (cc (rw (a, b, c, serve) at h))
        | inl (v, c) ↦ (a, b, c)
      ]
    ]
  ]

  serve_well :
      (search : I) (server : InetServer)
      → IsServed search server
      → serve start_server wait_server commit_service search server
        ≡ (zero_code, served ∷ waited ∷ committed ∷ [])
  unfolding serve
  serve_well search server (a, b, c) = rw (a, b, c, serve) refl

module _ {C I : Type 0} (lib : ConfigLib C) (grpc_enabled : Bool) (empty : C)
    (create_structo : C → Result (Option I))
    (start_server wait_server : InetServer → Result (Unit {0}))
    (commit_service : I → Result (Unit {0})) where
  -- All of it went well.
  abbrev pub WentWell : C → Type 0
  WentWell config =
      (search : I) × (server : InetServer) × (lib.is_empty
          (lib.get_section config (bytes_of "service"))
        ≡ false)
      × (create_structo (lib.get_section config (bytes_of "service")) ≡ ok (some search))
      × (create_inet_server lib grpc_enabled empty config ≡ ok server)
      × IsServed start_server wait_server commit_service search server

  abbrev run : (Bytes → Opened C) → List Bytes → Exit × List Done
  run = main lib grpc_enabled empty create_structo start_server wait_server commit_service

  with_service-IsServed :
      (config : C) (search : I)
      → (with_service lib grpc_enabled empty create_structo start_server wait_server commit_service
          config search).0
        ≡ zero_code
      → (server : InetServer) × (create_inet_server lib grpc_enabled empty config ≡ ok server)
        × IsServed start_server wait_server commit_service search server
  unfolding with_service
  with_service-IsServed config search h =
      elim (Result-cases (create_inet_server lib grpc_enabled empty config)) [
        | inr (e, a) ↦ absurd (refused_is_not_zero e (rw (a, with_service) at h))
        | inl (server, a) ↦ (
          server,
          a,
          serve-IsServed start_server wait_server commit_service search server
              (rw (a, with_service) at h),
        )
      ]

  with_config-WentWell :
      (config : C)
      → (with_config lib grpc_enabled empty create_structo start_server wait_server commit_service
          config).0
        ≡ zero_code
      → WentWell config
  unfolding with_config
  with_config-WentWell config h =
      elim (Bool-cases (lib.is_empty (lib.get_section config (bytes_of "service")))) [
        | inl b ↦ absurd (cc (rw (b, with_config) at h))
        | inr b ↦
            elim (Result-cases (create_structo (lib.get_section config (bytes_of "service")))) [
              | inr (e, a) ↦ absurd (refused_is_not_zero e (rw (b, a, with_config) at h))
              | inl (none, a) ↦ absurd (cc (rw (b, a, with_config) at h))
              | inl (some search, a) ↦
                  let (server, made, well) =
                    with_service-IsServed config search (rw (b, a, with_config) at h) in
                  (search, server, b, a, made, well)
            ]
      ]

  well-run :
      (open_config : Bytes → Opened C) (name file : Bytes) (more : List Bytes) (config : C)
      → open_config file ≡ config_of config
      → WentWell config
      → run open_config (name ∷ file ∷ more) ≡ (zero_code, served ∷ waited ∷ committed ∷ [])
  unfolding main with_config with_service
  well-run open_config name file more config o (search, server, b, a, made, well) =
      rw (o, b, a, made, main, with_service)
        (serve_well start_server wait_server commit_service search server well)

  run-WentWell :
      (open_config : Bytes → Opened C) (name file : Bytes) (more : List Bytes) (config : C)
      → open_config file ≡ config_of config
      → (run open_config (name ∷ file ∷ more)).0 ≡ zero_code
      → WentWell config
  unfolding main
  run-WentWell open_config name file more config o h =
      with_config-WentWell config (rw (o, main) at h)

  -- If the configuration can be opened, the program returns 0 if and only if there is a section of the service, the service
  -- and the server that the configuration names are created, and the server's Start and Wait and the service's Commit do not
  -- throw; and it has then done these, in this order, and not otherwise.
  pub main-WentWell :
      (open_config : Bytes → Opened C) (name file : Bytes) (more : List Bytes) (config : C)
      → open_config file ≡ config_of config
      → (((run open_config (name ∷ file ∷ more)).0 ≡ zero_code) ↔ WentWell config)
        × ((run open_config (name ∷ file ∷ more) ≡ (zero_code, served ∷ waited ∷ committed ∷ []))
            ↔ WentWell config)
  main-WentWell open_config name file more config o = (
    (
      run-WentWell open_config name file more config o,
      λ w. ap (λ r. r.0) (well-run open_config name file more config o w),
    ),
    (
      λ e. run-WentWell open_config name file more config o (ap (λ r. r.0) e),
      well-run open_config name file more config o,
    ),
  )
