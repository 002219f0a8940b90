-- ===== src/Setup/Served.antt =====
-- For which configurations a server is made, and which.
use palmira.Prelude.{
  ℕ, ◌^◌, ◌<◌, ◌≡◌, refl, ap, sym, ◌∙◌, inl, inr, Bool, true, false, ◌&&◌, [], Option, none, some,
  Bool-cases, Option-cases, Result-cases, ltb, ltb→lt, if◌then◌else◌, Result, ok, err, Exception,
  subst, arith,
}
use palmira.Prelude.Int.{ℤ, pos, negsuc}
use palmira.Values.{Bytes, bytes_of, Zval, z_charstr, z_zmap, Zmap}
use palmira.Document.{same_bytes}
use palmira.Setup.{
  ConfigLib, InetServer, http_server, grpc_server, port_in_range, create_http_server,
  create_grpc_server, api_section, typed_server, create_inet_server,
}

both : (a b : Bool) → a && b ≡ true → (a ≡ true) × (b ≡ true)
both true b h = (refl, h)
both false b h = cc h

port_in_range-some :
    (n : ℤ) (p : ℕ) → port_in_range n ≡ some p → (n ≡ pos p) × (0 < p) × (p < 2 ^ 16)
unfolding port_in_range
port_in_range-some (pos n) p h = elim (Bool-cases (ltb 0 n && ltb n (2 ^ 16))) [
  | inr e ↦ absurd (none_some (ap (λ b. if b then some n else none) (sym e) ∙ h))
  | inl e ↦
      let same : n ≡ p = some_same (ap (λ b. if b then some n else none) (sym e) ∙ h) in
      let (l, u) = both _ _ e in
      (ap pos same, omega (arith, ltb→lt 0 n l, same), omega (arith, ltb→lt n (2 ^ 16) u, same))
]
  where
    none_some : ◌≡◌ {A = Option ℕ} none (some p) → ⊥
    none_some e = cc e

    some_same : ◌≡◌ {A = Option ℕ} (some n) (some p) → n ≡ p
    some_same e = cc e
port_in_range-some (negsuc n) p h = cc h

module _ {ℓ} {A : Type ℓ} where
  no_ok : {x : Exception} {a : A} → ◌≡◌ {A = Result A} (err x) (ok a) → ⊥
  no_ok h = cc h

  ok_same : {a b : A} → ◌≡◌ {A = Result A} (ok a) (ok b) → a ≡ b
  ok_same h = cc h

module _ {C : Type 0} (lib : ConfigLib C) (grpc_enabled : Bool) (empty cfg : C) where
  -- The section that the value under "api" points to, by its name or by being one.
  abbrev pub Points : Zval → C → Type 0
  Points (z_charstr key) section =
      (m : Zmap) × (lib.get cfg key ≡ some (z_zmap m)) × (section ≡ lib.get_section cfg key)
  Points (z_zmap m) section = section ≡ lib.get_section cfg (bytes_of "api")
  Points _ section = section ≡ empty

  abbrev pub HasPort : C → ℕ → Type 0
  HasPort section port =
      (lib.get_int32 section (bytes_of "port") (negsuc 0) ≡ pos port) × (0 < port) × (port < 2 ^ 16)

  abbrev pub HasType : C → Bytes → Type 0
  HasType section name = same_bytes (lib.get_charstr section (bytes_of "type")) name ≡ true

  -- A section that has the type of the server and its port.
  abbrev pub Describes : C → InetServer → Type 0
  Describes section (http_server port) = HasType section (bytes_of "http") × HasPort section port
  Describes section (grpc_server port) =
      (grpc_enabled ≡ true) × HasType section (bytes_of "gRPC") × HasPort section port

  pub record Serves (s : InetServer) : Type 0 where
    pub api : Zval
    pub section : C
    pub found : lib.get cfg (bytes_of "api") ≡ some api
    pub points : Points api section
    pub not_empty : lib.is_empty section ≡ false
    pub describes : Describes section s

  create_http_server-Describes :
      (section : C) (s : InetServer)
      → HasType section (bytes_of "http")
      → create_http_server lib grpc_enabled section ≡ ok s
      → Describes section s
  unfolding create_http_server
  create_http_server-Describes section s t h =
      elim (Option-cases (port_in_range (lib.get_int32 section (bytes_of "port") (negsuc 0)))) [
        | inl e ↦ absurd (no_ok (rw (e, create_http_server) at h))
        | inr (p, e) ↦
            subst (Describes section) (ok_same (rw (e, create_http_server) at h))
              (t, port_in_range-some _ p e)
      ]

  create_grpc_server-Describes :
      (section : C) (s : InetServer)
      → HasType section (bytes_of "gRPC")
      → create_grpc_server lib grpc_enabled section ≡ ok s
      → Describes section s
  unfolding create_grpc_server
  create_grpc_server-Describes section s t h = elim (Bool-cases grpc_enabled) [
    | inr g ↦ absurd (no_ok (rw (g, create_grpc_server) at h))
    | inl g ↦
        elim (Option-cases (port_in_range (lib.get_int32 section (bytes_of "port") (negsuc 0)))) [
          | inl e ↦ absurd (no_ok (rw (g, e, create_grpc_server) at h))
          | inr (p, e) ↦
              subst (Describes section) (ok_same (rw (g, e, create_grpc_server) at h))
                (g, t, port_in_range-some _ p e)
        ]
  ]

  typed_server-Describes :
      (section : C) (s : InetServer)
      → typed_server lib grpc_enabled section ≡ ok s
      → (lib.is_empty section ≡ false) × Describes section s
  unfolding typed_server
  typed_server-Describes section s h = elim (Bool-cases (lib.is_empty section)) [
    | inl e ↦ absurd (no_ok (rw (e, typed_server) at h))
    | inr e ↦
        elim (Bool-cases
          (same_bytes (lib.get_charstr section (bytes_of "type")) (bytes_of "http"))) [
            | inl t ↦ (e, create_http_server-Describes section s t (rw (e, t, typed_server) at h))
            | inr n ↦
                elim (Bool-cases
                  (same_bytes (lib.get_charstr section (bytes_of "type")) (bytes_of "gRPC"))) [
                    | inl t ↦ (
                      e,
                      create_grpc_server-Describes section s t (rw (e, n, t, typed_server) at h),
                    )
                    | inr m ↦
                        elim (Bool-cases
                          (same_bytes (lib.get_charstr section (bytes_of "type")) [])) [
                            | inl k ↦ absurd (no_ok (rw (e, n, m, k, typed_server) at h))
                            | inr k ↦ absurd (no_ok (rw (e, n, m, k, typed_server) at h))
                          ]
                  ]
          ]
  ]

  api_section-Points :
      (v : Zval) (section : C)
      → api_section lib grpc_enabled empty cfg v ≡ ok section
      → Points v section
  unfolding api_section
  api_section-Points (z_charstr key) section h = elim (Option-cases (lib.get cfg key)) [
    | inl e ↦ absurd (no_ok (rw (e, api_section) at h))
    | inr (v, e) ↦ pointed v e
  ]
    where
      pointed : (v : Zval) → lib.get cfg key ≡ some v → Points (z_charstr key) section
      pointed (z_zmap m) e = (m, e, sym (ok_same (rw (e, api_section) at h)))
      pointed v e = absurd (no_ok (rw (e, api_section) at h))
  api_section-Points (z_zmap m) section h = sym (ok_same h)
  api_section-Points v section h = sym (ok_same h)

  -- A server is made only of a configuration whose "api" is a section, or the name of one, that is not empty and
  -- names the type of the server; its port is that of the section, and is from 1 to 65535; and one of
  -- gRPC only in a build with gRPC.
  pub create_inet_server-Serves :
      (s : InetServer) → create_inet_server lib grpc_enabled empty cfg ≡ ok s → Serves s
  unfolding create_inet_server
  create_inet_server-Serves s h = elim (Option-cases (lib.get cfg (bytes_of "api"))) [
    | inl e ↦ absurd (no_ok (rw (e, create_inet_server) at h))
    | inr (v, e) ↦ elim (Result-cases (api_section lib grpc_enabled empty cfg v)) [
      | inr (x, k) ↦ absurd (no_ok (rw (e, k, create_inet_server) at h))
      | inl (c, k) ↦
          let t : (lib.is_empty c ≡ false) × Describes c s =
            typed_server-Describes c s (rw (e, k, create_inet_server) at h) in
          record {
            api = v;
            section = c;
            found = e;
            points = api_section-Points v c k;
            not_empty = t.0;
            describes = t.1;
          }
    ]
  ]
