-- ===== src/Http/Client/Unpacked.antt =====
-- The compression of a body by the client, and what the server makes of it.
use palmira.Prelude.{
  ℕ, ◌+◌, ◌*◌, ◌^◌, ◌<◌, ◌≤◌, ◌≡◌, refl, ◌∙◌, ◌⊎◌, inl, inr, Bool, true, false, List, [], ◌∷◌,
  Option, some, Bool-cases, Result-cases, ltb, ltb→lt, length, if◌then◌else◌, ok, err, Exception,
  arith,
}
use palmira.Values.{Bytes, bytes_of}
use palmira.Document.{same_bytes}
use palmira.Http.Unpack.{
  Ret, z_stream_end, z_ok, z_buf_error, z_error, Inflated, deflate_encoding, encoding_of,
  inflate_message, deflate_vector,
}
use palmira.Http.Unpack.Rounds.{IsInflater}
use palmira.Http.Unpack.Ends.{inflate_message-content}
use palmira.Http.Client.{CompressionMethod, Impl, try_compress, modify}

-- What the HTTP library promises of headers: `put_header` sets one, and `set_headers` those that it is
-- given, and both leave the others.
pub record IsHeaders {H : Type 0} (new_headers : H) (put_header : Bytes → Bytes → H → H)
    (set_headers : List (Bytes × Bytes) → H → H) (get_header : H → Bytes → Bytes) : Type 0 where
  pub new : (n : Bytes) → get_header new_headers n ≡ []
  pub put_same : (n v : Bytes) (h : H) → get_header (put_header n v h) n ≡ v
  pub put_other :
      (n v m : Bytes) (h : H)
      → same_bytes n m ≡ false
      → get_header (put_header n v h) m ≡ get_header h m
  pub set_same : (n v : Bytes) (h : H) → get_header (set_headers ((n, v) ∷ []) h) n ≡ v
  pub set_other :
      (n v m : Bytes) (h : H)
      → same_bytes n m ≡ false
      → get_header (set_headers ((n, v) ∷ []) h) m ≡ get_header h m

-- What zlib promises: `inflate` can begin with what `deflate` gave, and holds the source of it; and
-- what `deflate` gives is within its bound, and is not empty.
pub record IsZlib {Z : Type 0} (deflate : Bytes → Ret × Bytes) (inflate_init : Bytes → Option Z)
    (Holds : Z → Bytes → Type 0) : Type 0 where
  pub begins :
      (src d : Bytes)
      → deflate src ≡ (z_stream_end, d)
      → (z : Z) × (inflate_init d ≡ some z) × Holds z src
  pub bound : (src d : Bytes) → deflate src ≡ (z_stream_end, d) → length d ≤ 2 * length src + 13
  pub nonempty : (src d : Bytes) → deflate src ≡ (z_stream_end, d) → 0 < length d

module _ (deflate_init : Bool) (deflate : Bytes → Ret × Bytes) where
  deflate_vector-ok :
      (src d : Bytes)
      → 0 < length src
      → deflate_vector deflate_init deflate src ≡ ok d
      → deflate src ≡ (z_stream_end, d)
  unfolding deflate_vector
  deflate_vector-ok [] d p h = absurd (omega arith)
  deflate_vector-ok (b ∷ bs) d p h = from deflate_init (deflate (b ∷ bs)) h
    where
      from :
          (init : Bool) (r : Ret × Bytes)
          → (if init
              then elim r.0 [
                | z_stream_end ↦ ok r.1
                | z_ok ↦ err (Exception.runtime_error "data compression error")
                | z_buf_error ↦ err (Exception.runtime_error "data compression error")
                | z_error ↦ err (Exception.runtime_error "data compression error")
              ]
              else err (Exception.runtime_error "deflate init error"))
            ≡ ok d
          → r ≡ (z_stream_end, d)
      from false r k = cc k
      from true (z_stream_end, x) k = cc k
      from true (z_ok, x) k = cc k
      from true (z_buf_error, x) k = cc k
      from true (z_error, x) k = cc k

  module _ {H : Type 0} (is_positive : ℕ → Bool) (new_headers : H)
      (put_header : Bytes → Bytes → H → H) (set_headers : List (Bytes × Bytes) → H → H) where
    abbrev zipped : CompressionMethod → Bytes → Bytes × H
    zipped method serial =
        try_compress is_positive new_headers put_header set_headers
          (deflate_vector deflate_init deflate) method serial

    -- The body is as it was, or it is compressed and the header tells so.
    try_compress-cases :
        (method : CompressionMethod) (serial : Bytes)
        → (zipped method serial ≡ (serial, new_headers))
          ⊎ ((d : Bytes) × (deflate serial ≡ (z_stream_end, d))
              × (zipped method serial
                  ≡ (d, put_header (bytes_of "Content-Encoding") (bytes_of "deflate") new_headers)))
    unfolding try_compress
    try_compress-cases CompressionMethod.method_none serial = inl refl
    try_compress-cases CompressionMethod.method_deflate serial =
        elim (Bool-cases (ltb 512 (length serial))) [
          | inr e ↦ inl (rw (e, try_compress) refl)
          | inl e ↦ elim (Result-cases (deflate_vector deflate_init deflate serial)) [
            | inr (x, k) ↦ inl (rw (e, k, try_compress) refl)
            | inl (d, k) ↦ inr (
              d,
              deflate_vector-ok serial d (omega (arith, ltb→lt 512 (length serial) e)) k,
              rw (e, k, try_compress) refl,
            )
          ]
        ]

    module _ {Z : Type 0} (inflate_init : Bytes → Option Z) (inflate : Z → ℕ → Inflated Z)
        {Holds : Z → Bytes → Type 0} (inflater : IsInflater inflate Holds)
        (zlib : IsZlib deflate inflate_init Holds) {get_header : H → Bytes → Bytes}
        (lib : IsHeaders new_headers put_header set_headers get_header) where
      -- What is made of a body is made again into the body by the other side.
      pub modify-unpacked :
          (fuel unset : ℕ) (impl : Impl) (t : ℕ) (serial uri : Bytes)
          → length serial < 2 ^ 27
          → length serial < fuel
          → inflate_message inflate_init inflate fuel unset
              (encoding_of (
                get_header
                  (modify is_positive new_headers put_header set_headers
                    (deflate_vector deflate_init deflate)
                    impl
                    t
                    serial
                    uri).headers
                  (bytes_of "Content-Encoding")))
              (some
                (modify is_positive new_headers put_header set_headers
                  (deflate_vector deflate_init deflate)
                  impl
                  t
                  serial
                  uri).body)
            ≡ ok (some serial)
      unfolding modify encoding_of inflate_message same_bytes
      modify-unpacked fuel unset impl t serial uri l f =
          elim (try_compress-cases impl.zip_meth serial) [
            | inl e ↦ rw (e, encoding_kept new_headers, lib.new (bytes_of "Content-Encoding")) refl
            | inr (d, k, e) ↦
                rw
                  (
                    e,
                    encoding_kept _,
                    lib.put_same (bytes_of "Content-Encoding") (bytes_of "deflate") new_headers,
                  )
                  (unpacked d k (zlib.begins serial d k))
          ]
        where
          encoding_kept :
              (h : H)
              → get_header
                  (set_headers
                    ((bytes_of "Content-Type", bytes_of "application/octet-stream") ∷ [])
                    h)
                  (bytes_of "Content-Encoding")
                ≡ get_header h (bytes_of "Content-Encoding")
          encoding_kept h =
              lib.set_other (bytes_of "Content-Type") (bytes_of "application/octet-stream")
                (bytes_of "Content-Encoding") h refl

          unpacked :
              (d : Bytes)
              → deflate serial ≡ (z_stream_end, d)
              → (z : Z) × (inflate_init d ≡ some z) × Holds z serial
              → inflate_message inflate_init inflate fuel unset deflate_encoding (some d)
                ≡ ok (some serial)
          unpacked d k (z, i, h) =
              inflate_message-content inflate_init inflate inflater fuel unset d serial z i h
                (zlib.nonempty serial d k) (omega (arith, zlib.bound serial d k)) (omega arith) f

      -- The client does not set a header that names the document.
      pub modify-unnamed :
          (impl : Impl) (t : ℕ) (serial uri : Bytes)
          → get_header
              (modify is_positive new_headers put_header set_headers
                (deflate_vector deflate_init deflate)
                impl
                t
                serial
                uri).headers
              (bytes_of "id")
            ≡ []
      unfolding modify same_bytes
      modify-unnamed impl t serial uri =
          lib.set_other (bytes_of "Content-Type") (bytes_of "application/octet-stream")
            (bytes_of "id") _ refl
          ∙ elim (try_compress-cases impl.zip_meth serial) [
            | inl e ↦ rw e (lib.new (bytes_of "id"))
            | inr (d, k, e) ↦ rw e (
                lib.put_other (bytes_of "Content-Encoding") (bytes_of "deflate") (bytes_of "id")
                  new_headers refl
                ∙ lib.new (bytes_of "id"))
          ]
