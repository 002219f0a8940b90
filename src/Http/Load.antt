-- ===== src/Http/Load.antt =====
-- src/network/http/jsload.cpp and zmload.cpp: the arguments of a request out of its body, in JSON or in
-- the binary form, and of its headers and its address.
pub mod Choice
pub mod Streams
use Prim.Native.String.{String}
use palmira.Prelude.{ℕ, List, [], ◌∷◌, Option, none, some, Result, ok, err, Exception, ◌>>=◌}
use palmira.Prelude.Int.{ℤ, pos}
use palmira.Values.{Bytes, Wide, Zval, Zmap, z_charstr, z_widestr, z_zmap, z_array_char}

-- The keys of a body: those that the server reads, and those that only the client writes.
pub data Name : Type 0 where
  id metadata document string query first count timeout if_clause : Name

abbrev pub Body : Type 0
Body = Name → Option Zval

-- What is read of the request: the header "id", empty if there is none, and the parameter "id" of the
-- address, if there is one other than "undefined".
pub record Request : Type 0 where
  pub header_id : Bytes
  pub uri_id : Option Bytes

pub record Args (X : Type 0) : Type 0 where
  pub object_id : Bytes
  pub metadata : Option Zmap
  pub text : Option X

module _ {X : Type 0} (uri_decode : Bytes → Bytes) where
  -- Access, in the body `m` or the header.
  unfoldable pub js_access : Request → Body → Args X → Result (Args X)
  js_access req m args = elim req.header_id [
    | (b ∷ bs) ↦ ok (record args { object_id = uri_decode (b ∷ bs) })
    | [] ↦ elim (m Name.id) [
      | none ↦ err (Exception.invalid_argument "undefined document 'id', string expected")
      | some v ↦ elim v [
        | z_charstr s ↦ ok (record args { object_id = s })
        | _ ↦ err (Exception.invalid_argument "undefined document 'id', string expected")
      ]
    ]
  ]

  -- Remove
  unfoldable pub js_remove : Request → Body → Args X → Result (Args X)
  unfolding js_access
  js_remove req m args = js_access req m args

  -- `if ( pmdata != nullptr ) arg.metadata = *pmdata;`
  unfoldable pub set_metadata : Option Zval → Args X → Args X
  set_metadata (some (z_zmap m)) args = record args { metadata = some m }
  set_metadata _ args = args

  -- Update
  unfoldable pub js_update : Request → Body → Args X → Result (Args X)
  unfolding set_metadata js_remove
  js_update req m args = js_remove req m (set_metadata (m Name.metadata) args)

-- SearchArgs: the query, and the order if it is set.
pub data Query (Q : Type 0) : Type 0 where
  by_id : Bytes → Query Q
  parsed : Q → Query Q
  as_given : Zmap → Query Q

pub record SearchArgs (Q : Type 0) : Type 0 where
  pub query : Option (Query Q)
  pub order : Option (ℤ × ℤ)

module _ {Q : Type 0} (parse : Bytes → Result Q) (parse_wide : Wide → Result Q)
    (to_int32 : Zval → Option ℤ) where
  -- `get_int32( key, default )`
  unfoldable pub get_int32 : Option Zval → ℤ → ℤ
  get_int32 none other = other
  get_int32 (some v) other = elim (to_int32 v) [ none ↦ other | some n ↦ n ]

  -- The query under "string", or else under "query".
  unfoldable pub js_query : Body → Result (Query Q)
  js_query m = elim (text_of (m Name.string)) [
    | some r ↦ r >>= λ q. ok (parsed q)
    | none ↦ elim (map_of (m Name.query)) [
      | some z ↦ ok (as_given z)
      | none ↦ err (Exception.invalid_argument "request contains neither 'query' nor 'string'")
    ]
  ]
    where
      text_of : Option Zval → Option (Result Q)
      text_of (some (z_charstr s)) = some (parse s)
      text_of (some (z_widestr w)) = some (parse_wide w)
      text_of _ = none

      map_of : Option Zval → Option Zmap
      map_of (some (z_zmap z)) = some z
      map_of _ = none

  -- Search. A parameter "undefined" counts as none, as it is the default.
  unfoldable pub js_search : Request → Body → SearchArgs Q → Result (SearchArgs Q)
  unfolding js_query get_int32
  js_search req m args = elim req.uri_id [
    | some i ↦ ok (record args { query = some (by_id i) })
    | none ↦ js_query m >>= λ q. ok (record {
      query = some q;
      order = some (get_int32 (m Name.first) (pos 1), get_int32 (m Name.count) (pos 10));
    })
  ]

-- Load( SearchArgs& ) of the binary form.
unfoldable pub zm_search : {Q : Type 0} → Request → List ℕ → SearchArgs Q → Result (SearchArgs Q)
zm_search req body args = ok args

-- The document of an insertion in the binary form: where it is, by the value of "document".
pub data Place : Type 0 where
  after_dump after_xml after_json elsewhere : Place

module _ {X : Type 0} (uri_decode : Bytes → Bytes) (place_of : Bytes → Place) (empty_text : X)
    (fetch_text load_tags load_json : List ℕ → Result X) where
  -- The text that the rest of the stream holds. A name that is none of the three leaves it empty.
  unfoldable pub zm_document : Place → List ℕ → Result X
  zm_document after_dump rest = fetch_text rest
  zm_document after_xml rest = load_tags rest
  zm_document after_json rest = load_json rest
  zm_document elsewhere rest = ok empty_text

  -- Load( InsertArgs& ) of the binary form; `m` is the map at the head of the stream, and `rest` what
  -- follows it. For an array of char the code asks for an array of strings, which is a null pointer.
  unfoldable pub zm_insert : Request → Body → List ℕ → Args X → Result (Args X)
  unfolding js_update zm_document
  zm_insert req m rest args = elim (m Name.document) [
    | none ↦ js_update uri_decode req m args
    | some v ↦ elim v [
      | z_charstr s ↦ zm_document (place_of s) rest >>= λ x.
          js_update uri_decode req m args >>= λ a. ok (record a { text = some x })
      | z_array_char cs ↦ err Exception.undefined
      | _ ↦ err (Exception.invalid_argument "Invalid 'document' image key type")
    ]
  ]
