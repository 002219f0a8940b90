-- ===== src/Tests/Grpc.antt =====
-- Messages of concrete values.
use palmira.Prelude.{ℕ, ◌+◌, ◌^◌, ◌≡◌, refl, [], ◌∷◌, ok, ◌>>=◌}
use palmira.Prelude.Int.{ℤ, pos, negsuc}
use palmira.Values.{
  Bytes, Wide, Zval, Zmap, key_charstr, no_entry, entry, no_zval, next_zval, z_int32, z_word64,
  z_word32, z_char, z_charstr, z_array_zval, z_zmap, z_array_int64, z_array_int32,
}
use palmira.Grpc.Messages.{to_metavalue, to_zval}
use palmira.Grpc.Messages.Trip.{arrives, to_zval-to_metavalue}

abbrev plain : Wide → Bytes
plain w = w

abbrev whole : ℕ → ℤ
whole n = pos n

abbrev sample : Zval
sample = z_array_zval (
    next_zval (z_char (negsuc 3)) (
      next_zval (z_zmap (entry (key_charstr (97 ∷ [])) (z_array_int64 (pos 5 ∷ [])) no_entry))
        no_zval))

to_zval-to_metavalue_example :
    (to_metavalue plain whole whole sample >>= to_zval)
    ≡ ok (
        z_array_zval (
          next_zval (z_int32 (negsuc 3)) (
            next_zval
              (z_zmap (entry (key_charstr (97 ∷ [])) (z_array_int32 (pos 5 ∷ [])) no_entry))
              no_zval)))
to_zval-to_metavalue_example = to_zval-to_metavalue plain whole whole sample refl

-- A word64 over 32 bits does not arrive.
word64_cut : arrives plain whole whole (z_word64 (2 ^ 32 + 7)) ≡ z_word32 7
word64_cut = refl

abbrev data_ : Zmap
data_ = entry (key_charstr (97 ∷ [])) (z_charstr (98 ∷ [])) no_entry
