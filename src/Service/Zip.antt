-- ===== src/Service/Zip.antt =====
-- src/service/structo-search.cpp, ZipBuf and Unpack: the compression of a document's image.
pub mod Trip
use palmira.Prelude.{
  ℕ, zero, suc, ◌+◌, ◌-◌, ◌*◌, ◌/◌, ◌%◌, ◌^◌, List, [], Option, none, some, ltb, if◌then◌else◌,
  length, Result, ok, err, Exception,
}

-- What zlib's `uncompress` does with a buffer: it fills it, or the buffer is too small, or the data
-- is broken.
pub data Inflated : Type 0 where
  z_ok : List ℕ → Inflated
  z_buf_error z_data_error : Inflated

-- zlib, which is not part of the repository. `compress` gives nothing if it fails; `uncompress` takes
-- the size of the buffer.
pub record Zlib : Type 0 where
  pub compress : List ℕ → Option (List ℕ)
  pub uncompress : ℕ → List ℕ → Inflated

module _ (z : Zlib) where
  -- `compressed_size > src.size() - 100`, in `size_t`.
  unfoldable pub zip_buf : List ℕ → Result (List ℕ)
  zip_buf src = elim (z.compress src) [
    | none ↦ err (Exception.range_error "compression failed")
    | some packed ↦
        if ltb ((length src + 2 ^ 64 - 100) % 2 ^ 64) (length packed)
        then err (Exception.range_error "ignore compression")
        else ok packed
  ]

  -- The loop of Unpack with a buffer of `room` bytes, on fuel.
  unfoldable pub unpack_loop : ℕ → ℕ → List ℕ → Result (List ℕ)
  unpack_loop zero room src = err Exception.out_of_fuel
  unpack_loop (suc fuel) room src =
      let more = unpack_loop fuel (room * 3 / 2) src in
      elim (z.uncompress room src) [
        | z_ok bytes ↦ ok bytes
        | z_buf_error ↦ more
        | z_data_error ↦ ok []
      ]

  unfoldable pub unpack : ℕ → List ℕ → Result (List ℕ)
  unfolding unpack_loop
  unpack fuel src = unpack_loop fuel (length src * 2) src
