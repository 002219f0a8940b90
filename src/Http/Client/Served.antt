-- ===== src/Http/Client/Served.antt =====
-- A request of the client, as the server serves it.
use palmira.Prelude.{
  ℕ, ◌^◌, ◌<◌, ◌≡◌, ◌∙◌, Bool, false, List, [], ◌++◌, Option, some, length, Result, ok, ◌>>=◌,
}
use Prim.Native.String.{String}
use palmira.Values.{Bytes, bytes_of, Zval, Zmap}
use palmira.Http.Load.{Body, Request, Args, Place, after_dump}
use palmira.Http.Load.Streams.{zm_load_insert}
use palmira.Http.Unpack.{Ret, Inflated, deflate_vector}
use palmira.Http.Unpack.Rounds.{IsInflater}
use palmira.Http.Client.{
  ClientArgs, insertion_bytes, Started, Impl, try_compress, modify, client_insert,
}
use palmira.Http.Client.Received.{IsWire, as_received, blank_args, contents, zm_insert-contents}
use palmira.Http.Client.Unpacked.{IsHeaders, IsZlib, modify-unpacked, modify-unnamed}
use palmira.Http.Server.Replies.{load_args_dump, action_call-loaded}
use palmira.Http.Server.{Incoming, method_post, caught, action_call, status_ok, output_json}

-- A request that was started, as it comes in.
abbrev pub incoming :
    {H : Type 0} → (H → Bytes → Bytes) → (Bytes → Option Bytes) → Started H → Incoming
incoming get_header uri_id s = record {
  content_type = get_header s.headers (bytes_of "Content-Type");
  content_encoding = get_header s.headers (bytes_of "Content-Encoding");
  method = method_post;
  request = record { header_id = get_header s.headers (bytes_of "id"); uri_id = uri_id s.uristr };
  src = some s.body;
}

-- The load of an insertion, in the binary form, into arguments that are new.
abbrev pub load_insertion :
    {X : Type 0} (uri_decode : Bytes → Bytes) (fetch_map : Option Bytes → Option (Body × Bytes))
    (place_of : Bytes → Place) (empty_text : X) (fetch_text load_tags load_json : Bytes → Result X)
    → Request
    → Option Bytes
    → Result (Args X)
load_insertion uri_decode fetch_map place_of empty_text fetch_text load_tags load_json req src =
    zm_load_insert uri_decode fetch_map place_of empty_text fetch_text load_tags load_json req src
      blank_args

module _ {X : Type 0} (is_nonnegative : ℕ → Bool) (is_empty : Zval → Bool) (text_length : X → ℕ)
    (serialize_map : Body → Bytes) (serialize_text : X → Bytes)
    (fetch_map : Option Bytes → Option (Body × Bytes)) (uri_decode : Bytes → Bytes)
    (place_of : Bytes → Place) (empty_text : X) (fetch_text load_tags load_json : Bytes → Result X)
    (place : place_of (bytes_of "after:dump") ≡ after_dump) where
  load_insertion-bytes :
      (req : Request) (args : ClientArgs X)
      → req.header_id ≡ []
      → IsWire serialize_map fetch_map serialize_text fetch_text
          (contents is_nonnegative is_empty text_length args)
          args.textview
      → load_insertion uri_decode fetch_map place_of empty_text fetch_text load_tags load_json req (
          some
            (insertion_bytes is_nonnegative is_empty text_length serialize_map serialize_text args))
        ≡ ok (as_received is_nonnegative is_empty text_length args)
  unfolding zm_load_insert insertion_bytes
  load_insertion-bytes req args h wire =
      rw (wire.map_back (serialize_text args.textview), zm_load_insert)
        (zm_insert-contents is_nonnegative is_empty text_length uri_decode req h place_of empty_text
          fetch_text load_tags load_json place args (serialize_text args.textview) (wire.text_back))

  module _ {H : Type 0} (is_positive : ℕ → Bool) (new_headers : H)
      (put_header : Bytes → Bytes → H → H) (set_headers : List (Bytes × Bytes) → H → H)
      (deflate_init : Bool) (deflate : Bytes → Ret × Bytes) {Z : Type 0}
      (inflate_init : Bytes → Option Z) (inflate : Z → ℕ → Inflated Z) {Holds : Z → Bytes → Type 0}
      (inflater : IsInflater inflate Holds) (zlib : IsZlib deflate inflate_init Holds)
      {get_header : H → Bytes → Bytes}
      (lib : IsHeaders new_headers put_header set_headers get_header)
      (parse_failure : String → Bytes) (uri_encode : Bytes → Bytes) (uri_id : Bytes → Option Bytes)
      (other_load : Request → Option Bytes → Result (Args X)) (insert : Args X → Result Zmap) where
    -- An insertion that the client makes, compressed or not, comes to the service: with the identifier and
    -- the text of the client, and the answer is the report of the service, or what its exception becomes.
    -- But its metadata do not come: in their place is the condition, if that is a map. The
    -- serialised request is shorter than 2^27 bytes.
    pub client_insert-action_call :
        (fuel unset : ℕ) (impl : Impl) (args : ClientArgs X)
        → IsWire serialize_map fetch_map serialize_text fetch_text
            (contents is_nonnegative is_empty text_length args)
            args.textview
        → length
            (insertion_bytes is_nonnegative is_empty text_length serialize_map serialize_text args)
          < 2 ^ 27
        → length
            (insertion_bytes is_nonnegative is_empty text_length serialize_map serialize_text args)
          < fuel
        → action_call parse_failure other_load
            (load_insertion uri_decode fetch_map place_of empty_text fetch_text load_tags load_json)
            insert
            inflate_init
            inflate
            fuel
            unset
            false
            (incoming get_header uri_id (
              client_insert is_positive new_headers put_header set_headers
                (deflate_vector deflate_init deflate)
                is_nonnegative
                is_empty
                text_length
                serialize_map
                serialize_text
                uri_encode
                impl
                args))
          ≡ caught parse_failure (
              insert (as_received is_nonnegative is_empty text_length args) >>= λ report.
              ok (output_json status_ok report))
    unfolding client_insert modify
    client_insert-action_call fuel unset impl args wire l f =
        action_call-loaded parse_failure other_load
          (load_insertion uri_decode fetch_map place_of empty_text fetch_text load_tags load_json)
          insert inflate_init inflate fuel unset req (some serial)
          (ok (as_received is_nonnegative is_empty text_length args))
          (modify-unpacked deflate_init deflate is_positive new_headers put_header set_headers
            inflate_init inflate inflater zlib lib fuel unset impl args.f_timeout serial uri l f)
          (load_args_dump parse_failure other_load
              (load_insertion uri_decode fetch_map place_of empty_text fetch_text load_tags
                load_json)
              insert req (some serial) (lib.set_same _ _ zipped.1)
            ∙ load_insertion-bytes req.request args
                (modify-unnamed deflate_init deflate is_positive new_headers put_header set_headers
                  inflate_init inflate inflater zlib lib impl args.f_timeout serial uri)
                wire)
      where
        serial : Bytes
        serial =
            insertion_bytes is_nonnegative is_empty text_length serialize_map serialize_text args

        uri : Bytes
        uri = bytes_of "/insert?id=" ++ uri_encode args.object_id

        zipped : Bytes × H
        zipped =
            try_compress is_positive new_headers put_header set_headers
              (deflate_vector deflate_init deflate) impl.zip_meth serial

        req : Incoming
        req = incoming get_header uri_id (
            modify is_positive new_headers put_header set_headers
              (deflate_vector deflate_init deflate) impl args.f_timeout serial uri)
