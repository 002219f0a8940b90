-- ===== src/Setup/Structo.antt =====
-- src/service/structo-create.cpp, and StructoService of src/service/structo-search.cpp: the service out of the
-- configuration.
use palmira.Prelude.{
  zero, suc, Bool, true, false, List, [], ◌∷◌, Option, none, some, if◌then◌else◌, Result, ok, err,
  Exception, ◌>>=◌,
}
use palmira.Prelude.Int.{ℤ, negsuc}
use palmira.Values.{Bytes, bytes_of, Zmaps, no_zmap, next_zmap, z_array_zmap}
use palmira.Document.{same_bytes}
use palmira.Setup.{ConfigLib}

-- FnContents, as the code chooses among structo's.
pub data Contents : Type 0 where
  rich bm25 mini : Contents

-- `lang_id == -1`
abbrev pub is_minus_one : ℤ → Bool
is_minus_one (negsuc n) = elim n [ zero ↦ true | suc k ↦ false ]
is_minus_one _ = false

module _ {C L : Type 0} (lib : ConfigLib C) (load_lemmatizer : Bytes → Bytes → Result L) where
  -- InitLanguages: the modules that are added to the processor, in order.
  unfoldable pub language : C → Result (ℤ × L)
  unfolding same_bytes
  language section =
      if is_minus_one (lib.get_int32 section (bytes_of "id") (negsuc 0))
      then err (
          Exception.invalid_argument
            "language 'id' must be defined and has to be non-negative integer")
      else if same_bytes (lib.get_path section (bytes_of "module")) []
      then err
          (Exception.invalid_argument "language 'module' must point to existing shared library")
      else load_lemmatizer (lib.get_path section (bytes_of "module"))
          (lib.get_path section (bytes_of "config"))
        >>= λ l. ok (lib.get_int32 section (bytes_of "id") (negsuc 0), l)

  unfoldable pub languages : C → Zmaps → Result (List (ℤ × L))
  unfolding language
  languages config no_zmap = ok []
  languages config (next_zmap m ms) =
      language (lib.section_of config m) >>= λ l. languages config ms >>= λ ls. ok (l ∷ ls)

  unfoldable pub init_languages : C → Result (List (ℤ × L))
  unfolding languages
  init_languages config = elim (lib.get config (bytes_of "languages")) [
    | none ↦ ok []
    | some v ↦ elim v [
      | z_array_zmap ms ↦ languages config ms
      | _ ↦ err (Exception.invalid_argument "'languages' has to be array of structures")
    ]
  ]

module _ {C : Type 0} (lib : ConfigLib C) where
  -- GetMakeContents
  unfoldable pub get_make_contents : C → Result Contents
  unfolding same_bytes
  get_make_contents config =
      if same_bytes (lib.get_charstr config (bytes_of "contents")) (bytes_of "Rich")
      then ok rich
      else if same_bytes (lib.get_charstr config (bytes_of "contents")) (bytes_of "BM25")
      then ok bm25
      else if same_bytes (lib.get_charstr config (bytes_of "contents")) (bytes_of "Mini")
      then ok mini
      else err (Exception.invalid_argument "unknown index contents type")

  -- OpenStorage and OpenContentsIndex, with structo's opening by the generic name.
  unfoldable pub open_storage : {S : Type 0} (open_posix : Bytes → Result S) → C → Result S
  unfolding same_bytes
  open_storage open_posix config =
      if same_bytes (lib.get_path config (bytes_of "generic_name")) []
      then err (Exception.invalid_argument "neither generic index name nor index policy was found")
      else open_posix (lib.get_path config (bytes_of "generic_name"))

  unfoldable pub open_contents_index :
      {S I : Type 0} (open_posix : Bytes → Result S) (create_layered : S → Result I) → C → Result I
  unfolding open_storage
  open_contents_index open_posix create_layered config =
      if lib.is_empty config
      then err (Exception.invalid_argument "section 'index' not found in configuration file")
      else open_storage open_posix config >>= create_layered

-- StructoService::data, with the contents that are null or are not.
pub record ServiceData (I P F : Type 0) : Type 0 where
  pub ctx_index : Option I
  pub lang_proc : P
  pub contents : Option Contents
  pub field_man : F

-- StructoSearch, as its constructor is given it.
pub record Service (I P F : Type 0) : Type 0 where
  pub ctx_index : I
  pub lang_proc : P
  pub field_man : F
  pub contents : Contents

-- StructoService: `init`, which is null until something is set.
abbrev pub StructoService : Type 0 → Type 0 → Type 0 → Type 0
StructoService I P F = Option (ServiceData I P F)

module _ {I P F : Type 0} (no_proc : P) (no_fields : F) where
  -- `if ( init == nullptr ) init = std::make_shared<data>()`
  unfoldable pub init_of : StructoService I P F → ServiceData I P F
  init_of none = record {
    ctx_index = none;
    lang_proc = no_proc;
    contents = some mini;
    field_man = no_fields;
  }
  init_of (some d) = d

  -- Set, of each type.
  unfoldable pub set_contents : Option Contents → StructoService I P F → StructoService I P F
  unfolding init_of
  set_contents contents s = some (record (init_of s) { contents = contents })

  unfoldable pub set_index : Option I → StructoService I P F → StructoService I P F
  unfolding init_of
  set_index index s = some (record (init_of s) { ctx_index = index })

  unfoldable pub set_processor : P → StructoService I P F → StructoService I P F
  unfolding init_of
  set_processor proc s = some (record (init_of s) { lang_proc = proc })

  unfoldable pub set_fields : F → StructoService I P F → StructoService I P F
  unfolding init_of
  set_fields fds s = some (record (init_of s) { field_man = fds })

  -- Create: where nothing was set, `init` is a null pointer.
  unfoldable pub create_service : StructoService I P F → Result (Service I P F)
  create_service none = err Exception.undefined
  create_service (some d) = elim d.contents [
    | none ↦ err (Exception.invalid_argument "invalid (null) contents creation callback")
    | some c ↦ elim d.ctx_index [
      | none ↦ err (Exception.invalid_argument "invalid (null) contents index")
      | some i ↦
          ok (record {
            ctx_index = i;
            lang_proc = d.lang_proc;
            field_man = d.field_man;
            contents = c;
          })
    ]
  ]

module _ {C L S I F : Type 0} (lib : ConfigLib C) (load_lemmatizer : Bytes → Bytes → Result L)
    (open_posix : Bytes → Result S) (create_layered : S → Result I) (load_fields : C → Result F)
    (no_fields : F) where
  -- CreateStructo. The calls are evaluated in their order.
  unfoldable pub create_structo : C → Result (Service I (List (ℤ × L)) F)
  unfolding init_languages open_contents_index get_make_contents set_processor set_index
      set_contents set_fields create_service
  create_structo config = init_languages lib load_lemmatizer config >>= λ proc.
      open_contents_index lib open_posix create_layered (lib.get_section config (bytes_of "index"))
      >>= λ index. get_make_contents lib config >>= λ contents. load_fields config >>= λ fields.
          create_service [] no_fields (
            set_fields [] no_fields fields (
              set_contents [] no_fields (some contents)
                (set_index [] no_fields (some index) (set_processor [] no_fields proc none))))
