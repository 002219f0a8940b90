-- ===== src/Http/Server/Replies.antt =====
-- What the handlers answer.
use palmira.Prelude.{ℕ, ◌≡◌, refl, false, Option, Result, ok, ◌>>=◌}
use Prim.Native.String.{String}
use palmira.Values.{Bytes, bytes_of, Zmap}
use palmira.Document.{same_bytes}
use palmira.Http.Load.{Request}
use palmira.Http.Unpack.{Inflated, encoding_of, inflate_message}
use palmira.Http.Server.{
  Incoming, is_json, is_dump, load_args, caught, action_call, status_ok, output_json,
}

module _ (parse_failure : String → Bytes) {A : Type 0}
    (load_json load_dump : Request → Option Bytes → Result A) (call : A → Result Zmap) where
  -- Of the binary form the body is loaded as such.
  pub load_args_dump :
      (req : Incoming) (stream : Option Bytes)
      → req.content_type ≡ bytes_of "application/octet-stream"
      → load_args parse_failure load_json load_dump call req stream ≡ load_dump req.request stream
  unfolding load_args is_json is_dump same_bytes
  load_args_dump req stream h = rw (h, load_args) refl

  module _ {Z : Type 0} (inflate_init : Bytes → Option Z) (inflate : Z → ℕ → Inflated Z)
      (fuel unset : ℕ) where
    -- A body that is unpacked and loaded comes to the service.
    pub action_call-loaded :
        (req : Incoming) (stream : Option Bytes) (loaded : Result A)
        → inflate_message inflate_init inflate fuel unset (encoding_of req.content_encoding) req.src
          ≡ ok stream
        → load_args parse_failure load_json load_dump call req stream ≡ loaded
        → action_call parse_failure load_json load_dump call inflate_init inflate fuel unset false
            req
          ≡ caught parse_failure
              (loaded >>= λ args. call args >>= λ report. ok (output_json status_ok report))
    unfolding action_call
    action_call-loaded req stream loaded i l = rw (i, l, action_call) refl
