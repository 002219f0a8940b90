-- ===== src/Http/Unpack.antt =====
-- src/network/http/unpack.cpp: the bodies of messages, compressed and inflated.
pub mod Rounds
pub mod Ends
pub mod Stuck
use palmira.Prelude.{
  ℕ, zero, suc, ◌+◌, ◌-◌, ◌*◌, ◌%◌, ◌^◌, min, Bool, true, false, List, [], ◌∷◌, ◌++◌, length, take,
  drop, Option, none, some, ◌==◌, if◌then◌else◌, Result, ok, err, Exception, ◌>>=◌,
}
use palmira.Values.{Bytes, bytes_of}
use palmira.Document.{same_bytes}

-- StreamOnVector: the vector and the position.
pub record StreamOnVector : Type 0 where
  pub vector : Bytes
  pub curpos : ℕ

-- StreamOnVector::Get, with what lands in the buffer. The difference is cast to 32 bits.
unfoldable pub get_count : StreamOnVector → ℕ → ℕ
get_count s cc = min cc ((length s.vector - s.curpos) % 2 ^ 32)

unfoldable pub vector_get : StreamOnVector → ℕ → StreamOnVector × Bytes
unfolding get_count
vector_get s cc = (
  record s { curpos = s.curpos + get_count s cc },
  take (get_count s cc) (drop s.curpos s.vector),
)

-- What zlib's `inflate` and `deflate` return, as far as the code tells it apart.
pub data Ret : Type 0 where
  z_ok z_stream_end z_buf_error z_error : Ret

-- One call of `inflate`: what it returns, the bytes that it puts out, and the stream after it.
pub record Inflated (Z : Type 0) : Type 0 where
  pub ret : Ret
  pub out : Bytes
  pub stream : Z

abbrev pub zeros : ℕ → Bytes
zeros zero = []
zeros (suc n) = 0 ∷ zeros n

-- The end of a round: the loop ends, throws, or goes on.
unfoldable pub after_round : Ret → (done : Bytes) → (rest : Result Bytes) → Result Bytes
after_round z_ok done rest = rest
after_round z_buf_error done rest = rest
after_round z_stream_end done rest = ok done
after_round z_error done rest = err (Exception.runtime_error "data decompression error")

-- `output.size()` after the test for a full buffer.
unfoldable pub grown : (size avail_out : ℕ) → ℕ
grown size avail_out = if avail_out == 0 then size * 2 else size

-- `stream.avail_out`, in 32 bits, when `outlen` bytes are out.
unfoldable pub room_of : (size outlen : ℕ) → ℕ
room_of size outlen = (size - outlen) % 2 ^ 32

module _ {Z : Type 0} (inflate_init : Bytes → Option Z) (inflate : Z → ℕ → Inflated Z) where
  -- The loop, in rounds of `fuel`: `done` is the output up to `outlen`. Where the room was cut to 32
  -- bits, the bytes of the vector behind what came out are zero.
  unfoldable pub inflate_loop :
      (fuel : ℕ) → Z → (size : ℕ) → (done : Bytes) → (avail_out : ℕ) → Result Bytes
  unfolding grown room_of after_round
  inflate_loop zero z size done avail_out = err Exception.out_of_fuel
  inflate_loop (suc fuel) z size done avail_out =
      let size' : ℕ = grown size avail_out in
      let room : ℕ = room_of size' (length done) in
      let step : Inflated Z = inflate z room in
      let avail : ℕ = room - length step.out in
      let done' : Bytes = done ++ step.out ++ zeros (size' - length done - room) in
      let rest = inflate_loop fuel step.stream size' done' avail in after_round step.ret done' rest

  -- Inflate( IByteStream* ): all that the stream holds, with the vector that the stream it returns
  -- is on. `avail_out` has no value before the first round; it is `unset` here.
  unfoldable pub inflate_stream : (fuel unset : ℕ) → Option Bytes → Result Bytes
  unfolding inflate_loop
  inflate_stream fuel unset none =
      err (Exception.invalid_argument "logic_error: null source stream")
  inflate_stream fuel unset (some source) = elim (inflate_init source) [
    | none ↦ err (Exception.runtime_error "could not inflateInit")
    | some z ↦ inflate_loop fuel z (length source * 4) [] unset
  ]

-- The values of "Content-Encoding" that the code tells apart.
pub data Encoding : Type 0 where
  no_encoding deflate_encoding gzip_encoding other_encoding : Encoding

-- `GetHeaders().get( "Content-Encoding" )`, as the code compares it.
unfoldable pub encoding_of : Bytes → Encoding
unfolding same_bytes
encoding_of method =
    if same_bytes method []
    then no_encoding
    else if same_bytes method (bytes_of "deflate")
    then deflate_encoding
    else if same_bytes method (bytes_of "gzip")
    then gzip_encoding
    else other_encoding

module _ {Z : Type 0} (inflate_init : Bytes → Option Z) (inflate : Z → ℕ → Inflated Z) where
  -- Inflate( http::Message, IByteStream* ): without an encoding the stream itself, null or not.
  unfoldable pub inflate_message :
      (fuel unset : ℕ) → Encoding → Option Bytes → Result (Option Bytes)
  unfolding inflate_stream
  inflate_message fuel unset no_encoding src = ok src
  inflate_message fuel unset deflate_encoding src =
      inflate_stream inflate_init inflate fuel unset src >>= λ bs. ok (some bs)
  inflate_message fuel unset gzip_encoding src =
      err (Exception.invalid_argument "Content-Encoding not supported")
  inflate_message fuel unset other_encoding src =
      err (Exception.invalid_argument "Content-Encoding not supported")

-- Deflate: `deflate_init` says if zlib can start, and `deflate` is the one call, with a buffer of the
-- bound that zlib gives.
unfoldable pub deflate_vector :
    (deflate_init : Bool) (deflate : Bytes → Ret × Bytes) → Bytes → Result Bytes
deflate_vector deflate_init deflate [] = ok []
deflate_vector deflate_init deflate (b ∷ bs) =
    if deflate_init
    then elim (deflate (b ∷ bs)).0 [
      | z_stream_end ↦ ok (deflate (b ∷ bs)).1
      | z_ok ↦ err (Exception.runtime_error "data compression error")
      | z_buf_error ↦ err (Exception.runtime_error "data compression error")
      | z_error ↦ err (Exception.runtime_error "data compression error")
    ]
    else err (Exception.runtime_error "deflate init error")
