-- ===== src/Http/Load/Choice.antt =====
-- Which document a request names, and what it changes.
use palmira.Prelude.{◌≡◌, refl, ap, ◌∙◌, [], ◌∷◌, Option, none, some, Result, ok, err, Exception}
use palmira.Values.{Bytes, Zval, Zmap, z_charstr, z_zmap}
use palmira.Arguments.{as_charstr, as_zmap, access_args}
use palmira.Http.Load.{Name, Body, Request, Args, js_access, js_remove, set_metadata, js_update}

-- The identifier: of the header, if it has one that is not empty, or else of the body.
abbrev pub chosen : (Bytes → Bytes) → Bytes → Option Bytes → Option Bytes
chosen uri_decode [] body = body
chosen uri_decode (b ∷ bs) body = some (uri_decode (b ∷ bs))

module _ {X : Type 0} (uri_decode : Bytes → Bytes) where
  -- The metadata: of the body, if it has a map of them, or else what they were.
  abbrev pub merged : Option Zmap → Args X → Option Zmap
  merged none args = args.metadata
  merged (some z) args = some z

  abbrev pub named : Option Bytes → Args X → Result (Args X)
  named none args = err (Exception.invalid_argument "undefined document 'id', string expected")
  named (some i) args = ok (record args { object_id = i })

  body_id :
      (req : Request) (m : Body) (args : Args X) (v : Option Zval)
      → req.header_id ≡ []
      → m Name.id ≡ v
      → js_access uri_decode req m args ≡ named (as_charstr v) args
  unfolding js_access
  body_id req m args none h e = rw (h, e, js_access)
  body_id req m args (some (z_charstr s)) h e = rw (h, e, js_access)
  body_id req m args (some _) h e = rw (h, e, js_access)

  js_access-named :
      (req : Request) (m : Body) (args : Args X) (header : Bytes)
      → req.header_id ≡ header
      → js_access uri_decode req m args
        ≡ named (chosen uri_decode header (as_charstr (m Name.id))) args
  unfolding js_access
  js_access-named req m args [] h = body_id req m args (m Name.id) h refl
  js_access-named req m args (b ∷ bs) h = rw (h, js_access)

  set_metadata_lem :
      (v : Option Zval) (args : Args X)
      → set_metadata uri_decode v args ≡ record args { metadata = merged (as_zmap v) args }
  unfolding set_metadata
  set_metadata_lem none args = refl
  set_metadata_lem (some (z_zmap m)) args = refl
  set_metadata_lem (some _) args = refl

  -- An update names the document of the header, if the header has an identifier that is not empty, or
  -- else that of the body, and is refused if neither has one; it takes the metadata of the body if
  -- they are a map.
  pub js_update-named :
      (req : Request) (m : Body) (args : Args X)
      → js_update uri_decode req m args
        ≡ named
            (chosen uri_decode req.header_id (as_charstr (m Name.id)))
            (record args { metadata = merged (as_zmap (m Name.metadata)) args })
  unfolding js_update js_remove
  js_update-named req m args =
      ap (λ a. js_access uri_decode req m a) (set_metadata_lem (m Name.metadata) args)
      ∙ js_access-named req m (record args { metadata = merged (as_zmap (m Name.metadata)) args })
          req.header_id refl

  -- An empty identifier in the body is taken over HTTP, though the constructor of the arguments out of
  -- a map refuses it.
  js_access_empty :
      (req : Request) (m : Body) (args : Args X) (a : palmira.Arguments.Args)
      → req.header_id ≡ []
      → m Name.id ≡ some (z_charstr [])
      → a palmira.Arguments.Name.id ≡ m Name.id
      → (js_access uri_decode req m args ≡ ok (record args { object_id = [] }))
        × (access_args a ≡ err (Exception.invalid_argument "absent object 'id'"))
  unfolding js_access access_args
  js_access_empty req m args a h e same = (rw (h, e, js_access), rw (same ∙ e, access_args))
