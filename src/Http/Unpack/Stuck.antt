-- ===== src/Http/Unpack/Stuck.antt =====
-- Bodies of which the loop of Inflate is never done.
use palmira.Prelude.{
  ℕ, zero, suc, ◌*◌, ◌≡◌, refl, ap, inl, inr, ◌⊎◌, [], length, take, drop, Option, some, ok, err,
  Exception, ◌>>=◌,
}
use palmira.Values.{Bytes}
use palmira.Http.Unpack.{
  z_ok, z_buf_error, after_round, Inflated, inflate_loop, inflate_stream, deflate_encoding,
  inflate_message, grown, room_of,
}

-- zlib's `inflate` on a stream that is cut short, where `Pending z content` says that `content` can still be
-- inflated from `z` before its bytes are at an end: as much of it comes out as there is room for, and
-- the call returns Z_OK, or Z_BUF_ERROR if it made no progress, since the end is never reached.
pub record IsCutShort {Z : Type 0} (inflate : Z → ℕ → Inflated Z) (Pending : Z → Bytes → Type 0)
    : Type 0 where
  pub puts :
      (z : Z) (content : Bytes) (room : ℕ)
      → Pending z content
      → (inflate z room).out ≡ take room content
  pub leaves :
      (z : Z) (content : Bytes) (room : ℕ)
      → Pending z content
      → Pending (inflate z room).stream (drop room content)
  pub goes_on :
      (z : Z) (content : Bytes) (room : ℕ)
      → Pending z content
      → ((inflate z room).ret ≡ z_ok)
        ⊎ (((inflate z room).ret ≡ z_buf_error) × (take room content ≡ []))

module _ {Z : Type 0} (inflate_init : Bytes → Option Z) (inflate : Z → ℕ → Inflated Z)
    {Pending : Z → Bytes → Type 0} (cut : IsCutShort inflate Pending) where
  inflate_loop-cut :
      (fuel : ℕ) (z : Z) (content : Bytes) (size : ℕ) (done : Bytes) (avail : ℕ)
      → Pending z content
      → inflate_loop inflate_init inflate fuel z size done avail ≡ err Exception.out_of_fuel
  unfolding inflate_loop after_round
  inflate_loop-cut zero z content size done avail h = refl
  inflate_loop-cut (suc fuel) z content size done avail h =
      elim (cut.goes_on z content (room_of (grown size avail) (length done)) h) [
        | inl e ↦
            rw (e, inflate_loop)
              (inflate_loop-cut fuel _ _ _ _ _
                (cut.leaves z content (room_of (grown size avail) (length done)) h))
        | inr p ↦
            rw (p.0, inflate_loop)
              (inflate_loop-cut fuel _ _ _ _ _
                (cut.leaves z content (room_of (grown size avail) (length done)) h))
      ]

  inflate_stream-cut :
      (fuel unset : ℕ) (source : Bytes) (z : Z) (content : Bytes)
      → inflate_init source ≡ some z
      → Pending z content
      → inflate_stream inflate_init inflate fuel unset (some source) ≡ err Exception.out_of_fuel
  unfolding inflate_stream
  inflate_stream-cut fuel unset source z content i h =
      rw (i, inflate_stream) (inflate_loop-cut fuel z content (length source * 4) [] unset h)

  -- A body said to be compressed that is cut short is never done with: whatever can be inflated of it before
  -- its bytes are at an end, the loop has no end, whatever the number of rounds, where zlib puts out
  -- what there is and returns Z_OK, or Z_BUF_ERROR once it makes no progress.
  pub inflate_message-cut :
      (fuel unset : ℕ) (source : Bytes) (z : Z) (content : Bytes)
      → inflate_init source ≡ some z
      → Pending z content
      → inflate_message inflate_init inflate fuel unset deflate_encoding (some source)
        ≡ err Exception.out_of_fuel
  unfolding inflate_message inflate_stream
  inflate_message-cut fuel unset source z content i h =
      ap (λ r. r >>= λ bs. ok (some bs)) (inflate_stream-cut fuel unset source z content i h)
