-- ===== src/Http/Unpack/Rounds.antt =====
-- One round of the loop of Inflate, and what zlib is documented to do.
use palmira.Prelude.{
  ℕ, zero, suc, ◌-◌, ◌*◌, ◌^◌, ◌<◌, ◌≤◌, ◌≡◌, refl, ap, ◌∙◌, ◌⊎◌, Bool, true, false, [], ◌∷◌, ◌++◌,
  length, take, drop, take_all, Option, Result, ok, arith,
}
use mathlib.Core.List.{append-nil}
use palmira.Values.{Bytes}
use palmira.Http.Unpack.{
  Ret, z_ok, z_stream_end, z_buf_error, z_error, after_round, Inflated, zeros, inflate_loop, grown,
  room_of,
}

-- The values after which the loop goes on.
abbrev pub goes_on : Ret → Bool
goes_on z_ok = true
goes_on z_buf_error = true
goes_on z_stream_end = false
goes_on z_error = false

pub after_round-goes_on :
    (r : Ret) (done : Bytes) (rest : Result Bytes)
    → goes_on r ≡ true
    → after_round r done rest ≡ rest
unfolding after_round
after_round-goes_on z_ok done rest h = refl
after_round-goes_on z_buf_error done rest h = refl
after_round-goes_on z_stream_end done rest h = cc h
after_round-goes_on z_error done rest h = cc h

-- What `inflate` is documented to do: with `room` bytes to write to it puts out the next bytes of the
-- content, as many as there is room for; it goes on while there is more, and tells the end of the stream
-- with the last bytes, or on the next call if these filled the buffer.
pub record IsInflater {Z : Type 0} (inflate : Z → ℕ → Inflated Z) (Holds : Z → Bytes → Type 0)
    : Type 0 where
  pub puts :
      (z : Z) (content : Bytes) (room : ℕ)
      → Holds z content
      → (inflate z room).out ≡ take room content
  pub ends :
      (z : Z) (content : Bytes) (room : ℕ)
      → Holds z content
      → length content < room
      → (inflate z room).ret ≡ z_stream_end
  pub continues :
      (z : Z) (content : Bytes) (room : ℕ)
      → Holds z content
      → room < length content
      → (goes_on (inflate z room).ret ≡ true) × Holds (inflate z room).stream (drop room content)
  pub filled :
      (z : Z) (content : Bytes) (room : ℕ)
      → Holds z content
      → room ≡ length content
      → ((inflate z room).ret ≡ z_stream_end)
        ⊎ ((goes_on (inflate z room).ret ≡ true)
            × Holds (inflate z room).stream (drop room content))

pub take-drop : (n : ℕ) (xs : Bytes) → take n xs ++ drop n xs ≡ xs
take-drop zero xs = refl
take-drop (suc n) [] = refl
take-drop (suc n) (x ∷ xs) = ap (◌∷◌ x) (take-drop n xs)

no_zeros : (k : ℕ) (xs : Bytes) → k ≡ 0 → xs ++ zeros k ≡ xs
no_zeros zero xs h = append-nil xs
no_zeros (suc k) xs h = absurd (omega arith)

pub trichotomy : (a b : ℕ) → (a < b) ⊎ ((a ≡ b) ⊎ (b < a))
trichotomy a b = ground arith

pub grown-above :
    (size avail outlen : ℕ)
    → 0 < size
    → ((avail ≡ 0) × (outlen ≤ size)) ⊎ (outlen < size)
    → outlen < grown size avail
unfolding grown
grown-above size avail outlen p h = ground arith

pub grown-le : (size avail : ℕ) → grown size avail ≤ size * 2
unfolding grown
grown-le size avail = ground arith

pub room_of-small : (size outlen : ℕ) → size < 2 ^ 32 → room_of size outlen ≡ size - outlen
unfolding room_of
room_of-small size outlen h = omega arith

module _ {Z : Type 0} (inflate_init : Bytes → Option Z) (inflate : Z → ℕ → Inflated Z) where
  module _ {Holds : Z → Bytes → Type 0} (zlib : IsInflater inflate Holds) where
    -- One round, where the sizes fit into 32 bits.
    pub round :
        (fuel : ℕ) (z : Z) (size s : ℕ) (done : Bytes) (avail room : ℕ) (content : Bytes)
        → Holds z content
        → grown size avail ≡ s
        → room_of s (length done) ≡ room
        → s - length done - room ≡ 0
        → inflate_loop inflate_init inflate (suc fuel) z size done avail
          ≡ after_round (inflate z room).ret (done ++ take room content) (
              inflate_loop inflate_init inflate fuel
                (inflate z room).stream
                s
                (done ++ take room content)
                (room - length (take room content)))
    unfolding inflate_loop
    round fuel z size s done avail room content h g r k =
        rw
          (g, r, zlib.puts z content room h, no_zeros _ (done ++ take room content) k, inflate_loop)
          refl

    pub round_last :
        (fuel : ℕ) (z : Z) (size s : ℕ) (done : Bytes) (avail room : ℕ) (content : Bytes)
        → Holds z content
        → grown size avail ≡ s
        → room_of s (length done) ≡ room
        → s - length done - room ≡ 0
        → (inflate z room).ret ≡ z_stream_end
        → length content ≤ room
        → inflate_loop inflate_init inflate (suc fuel) z size done avail ≡ ok (done ++ content)
    unfolding after_round
    round_last fuel z size s done avail room content h g r k e l =
        round fuel z size s done avail room content h g r k ∙ rw (e, take_all room content l) refl
