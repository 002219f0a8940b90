-- ===== src/Zip/Stream.antt =====
-- src/objects/read-zip.cpp, the functions by which minizip reads a buffer: the stream `STM`.
pub mod Bounds
use palmira.Prelude.{
  ℕ, ◌+◌, ◌-◌, ◌*◌, ◌%◌, ◌^◌, min, List, [], ◌∷◌, ltb, if◌then◌else◌, length, take, drop, Option,
  none, some,
}

-- STM: `cpos` is never negative.
pub record Stm : Type 0 where
  pub data_ : List ℕ
  pub cpos : ℕ
  pub nerr : ℕ

-- The origins of a seek.
pub data Origin : Type 0 where
  seek_set seek_cur seek_end other_origin : Origin

abbrev pub einval : ℕ
einval = 22

abbrev pub erange : ℕ
erange = 34

-- zip_open_file
unfoldable pub zip_open : List ℕ → Stm
zip_open bytes = record { data_ = bytes; cpos = 0; nerr = 0 }

-- `std::min( mem->data->GetLen() - mem->cpos, len )`, in 64 bits.
unfoldable pub read_count : Stm → ℕ → ℕ
read_count s len = min ((length s.data_ + 2 ^ 64 - s.cpos) % 2 ^ 64) len

-- zip_read_file: what lands in the buffer. A read past the end of the data is undefined, and is none.
unfoldable pub zip_read : Stm → ℕ → Option (Stm × List ℕ)
unfolding read_count
zip_read s len =
    if ltb (length s.data_) (s.cpos + read_count s len)
    then none
    else some (
      record s { cpos = s.cpos + read_count s len; nerr = 0 },
      take (read_count s len) (drop s.cpos s.data_),
    )

-- zip_write_file returns -1, here none.
unfoldable pub zip_write : Stm → Stm × Option ℕ
zip_write s = (record s { nerr = einval }, none)

-- zip_tell_file
unfoldable pub zip_tell : Stm → Stm × ℕ
zip_tell s = (record s { nerr = 0 }, s.cpos)

-- zip_seek_file: `none` is -1. The position counts only from the start.
unfoldable pub zip_seek : Stm → ℕ → Origin → Stm × Option ℕ
zip_seek s pos seek_set =
    if ltb (length s.data_) pos
    then (record s { nerr = erange }, none)
    else (record s { cpos = pos }, some 0)
zip_seek s pos seek_cur = (s, some 0)
zip_seek s pos seek_end = (record s { cpos = length s.data_ }, some 0)
zip_seek s pos other_origin = (record s { nerr = einval }, none)

-- zip_error_file
unfoldable pub zip_error : Stm → Stm × ℕ
zip_error s = (record s { nerr = 0 }, s.nerr)
