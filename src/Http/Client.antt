-- ===== src/Http/Client.antt =====
-- src/network/http/client.cpp: the requests that the client makes.
pub mod Received
pub mod Unpacked
pub mod Served
pub mod Address
pub mod Answer
pub mod Waiter
use palmira.Prelude.{
  ℕ, ◌++◌, Bool, true, false, List, [], ◌∷◌, Option, none, some, ◌==◌, ltb, length, if◌then◌else◌,
  Result, ok, err,
}
use palmira.Values.{Bytes, bytes_of, Zval, Zmap, no_entry, entry, z_charstr, z_double}
use palmira.Http.Load.{Name, Body}

-- InsertArgs, with what it has of UpdateArgs, RemoveArgs, AccessArgs and TimingArgs.
pub record ClientArgs (X : Type 0) : Type 0 where
  pub f_timeout : ℕ
  pub object_id : Bytes
  pub if_clause : Zval
  pub metadata : Zmap
  pub textview : X

pub data CompressionMethod : Type 0 where
  method_none method_deflate : CompressionMethod

abbrev pub rank : Name → ℕ
rank Name.id = 0
rank Name.metadata = 1
rank Name.document = 2
rank Name.string = 3
rank Name.query = 4
rank Name.first = 5
rank Name.count = 6
rank Name.timeout = 7
rank Name.if_clause = 8

-- `zmap[key] = value`
abbrev pub put : Name → Zval → Body → Body
put k v m n = if rank k == rank n then some v else m n

-- `metadata.empty()`
abbrev pub is_empty_map : Zmap → Bool
is_empty_map no_entry = true
is_empty_map (entry k v m) = false

module _ {X : Type 0} (is_nonnegative : ℕ → Bool) (is_empty : Zval → Bool)
    (text_length : X → ℕ) where
  -- MakeContents( mtc::zmap&, const TimingArgs& )
  unfoldable pub timing_contents : Body → ClientArgs X → Body
  timing_contents zmap args =
      if is_nonnegative args.f_timeout
      then put Name.timeout (z_double args.f_timeout) zmap
      else zmap

  -- MakeContents( mtc::zmap&, const AccessArgs& )
  unfoldable pub access_contents : Body → ClientArgs X → Body
  unfolding timing_contents
  access_contents zmap args = timing_contents (put Name.id (z_charstr args.object_id) zmap) args

  -- MakeContents( mtc::zmap&, const RemoveArgs& )
  unfoldable pub remove_contents : Body → ClientArgs X → Body
  unfolding access_contents
  remove_contents zmap args =
      access_contents
        (if is_empty args.if_clause then zmap else put Name.if_clause args.if_clause zmap) args

  -- MakeContents( mtc::zmap&, const UpdateArgs& ): the clause goes under "metadata".
  unfoldable pub update_contents : Body → ClientArgs X → Body
  unfolding remove_contents
  update_contents zmap args =
      remove_contents
        (if is_empty_map args.metadata then zmap else put Name.metadata args.if_clause zmap) args

  -- MakeContents( mtc::zmap&, const InsertArgs& )
  unfoldable pub insert_contents : Body → ClientArgs X → Body
  unfolding update_contents
  insert_contents zmap args =
      update_contents
        (if text_length args.textview == 0
          then zmap
          else put Name.document (z_charstr (bytes_of "after:dump")) zmap)
        args

abbrev pub no_body : Body
no_body n = none

module _ {X : Type 0} (is_nonnegative : ℕ → Bool) (is_empty : Zval → Bool) (text_length : X → ℕ)
    (serialize_map : Body → Bytes) (serialize_text : X → Bytes) where
  -- MakeContents of a removal and of an update, and of an insertion: the text follows the map.
  unfoldable pub removal_bytes : ClientArgs X → Bytes
  unfolding remove_contents
  removal_bytes req =
      serialize_map (remove_contents is_nonnegative is_empty text_length no_body req)

  unfoldable pub update_bytes : ClientArgs X → Bytes
  unfolding update_contents
  update_bytes req = serialize_map (update_contents is_nonnegative is_empty text_length no_body req)

  unfoldable pub insertion_bytes : ClientArgs X → Bytes
  unfolding insert_contents
  insertion_bytes req =
      serialize_map (insert_contents is_nonnegative is_empty text_length no_body req)
      ++ serialize_text req.textview

  -- MakeContents( const SearchArgs& ): of the overloads only that of TimingArgs fits.
  unfoldable pub search_bytes : ClientArgs X → Bytes
  unfolding timing_contents
  search_bytes req = serialize_map (timing_contents is_nonnegative is_empty text_length no_body req)

-- The request that is started: what was given to it.
pub record Started (H : Type 0) : Type 0 where
  pub uristr : Bytes
  pub headers : H
  pub body : Bytes
  pub timeout : Option ℕ

-- The members of Client::impl.
pub record Impl : Type 0 where
  pub zip_meth : CompressionMethod
  pub timeout : ℕ

module _ {H : Type 0} (is_positive : ℕ → Bool) (new_headers : H)
    (put_header : Bytes → Bytes → H → H) (set_headers : List (Bytes × Bytes) → H → H)
    (deflate : Bytes → Result Bytes) where
  -- The body and the headers after the attempt to compress.
  unfoldable pub try_compress : CompressionMethod → Bytes → Bytes × H
  try_compress CompressionMethod.method_none serial = (serial, new_headers)
  try_compress CompressionMethod.method_deflate serial =
      if ltb 512 (length serial)
      then elim (deflate serial) [
        | ok d ↦ (d, put_header (bytes_of "Content-Encoding") (bytes_of "deflate") new_headers)
        | err x ↦ (serial, new_headers)
      ]
      else (serial, new_headers)

  -- Modify: `serial` is MakeContents( args ).
  unfoldable pub modify : Impl → (f_timeout : ℕ) → (serial uristr : Bytes) → Started H
  unfolding try_compress
  modify impl f_timeout serial uristr =
      let timing : ℕ = if is_positive f_timeout then f_timeout else impl.timeout in
      let zipped : Bytes × H = try_compress impl.zip_meth serial in
      record {
        uristr = uristr;
        headers =
            set_headers ((bytes_of "Content-Type", bytes_of "application/octet-stream") ∷ [])
              zipped.1;
        body = zipped.0;
        timeout = if is_positive timing then some timing else none;
      }

  module _ {X : Type 0} (is_nonnegative : ℕ → Bool) (is_empty : Zval → Bool) (text_length : X → ℕ)
      (serialize_map : Body → Bytes) (serialize_text : X → Bytes) (uri_encode : Bytes → Bytes) where
    -- Insert, Update, Remove and Search.
    unfoldable pub client_insert : Impl → ClientArgs X → Started H
    unfolding modify insertion_bytes
    client_insert impl args =
        modify impl args.f_timeout
          (insertion_bytes is_nonnegative is_empty text_length serialize_map serialize_text args)
          (bytes_of "/insert?id=" ++ uri_encode args.object_id)

    unfoldable pub client_update : Impl → ClientArgs X → Started H
    unfolding modify update_bytes
    client_update impl args =
        modify impl args.f_timeout
          (update_bytes is_nonnegative is_empty text_length serialize_map serialize_text args)
          (bytes_of "/update?id=" ++ uri_encode args.object_id)

    unfoldable pub client_remove : Impl → ClientArgs X → Started H
    unfolding modify removal_bytes
    client_remove impl args =
        modify impl args.f_timeout
          (removal_bytes is_nonnegative is_empty text_length serialize_map serialize_text args)
          (bytes_of "/remove?id=" ++ uri_encode args.object_id)

    unfoldable pub client_search : Impl → ClientArgs X → Started H
    unfolding modify search_bytes
    client_search impl args =
        modify impl args.f_timeout
          (search_bytes is_nonnegative is_empty text_length serialize_map serialize_text args)
          (bytes_of "/search")
