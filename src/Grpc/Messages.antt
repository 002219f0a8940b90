-- ===== src/Grpc/Messages.antt =====
-- src/network/grpc/messages.cpp: values and maps to messages of the protocol, and back.
pub mod Trip
use palmira.Prelude.{
  ℕ, ◌+◌, ◌-◌, ◌*◌, ◌%◌, ◌^◌, List, [], ◌∷◌, map, Result, ok, err, Exception, ◌>>=◌,
}
use palmira.Prelude.Int.{ℤ, pos, negsuc, to_int32}
use palmira.Values.{
  Bytes, Wide, Key, key_charstr, key_other, Zval, Zmap, Zmaps, Zvals, MetaValue, Metadata,
  Metadatas, MetaValues, z_untyped, z_char, z_int16, z_int32, z_int64, z_byte, z_word16, z_word32,
  z_word64, z_float, z_double, z_bool, z_charstr, z_widestr, z_zmap, z_array_char, z_array_int16,
  z_array_int32, z_array_int64, z_array_byte, z_array_word16, z_array_word32, z_array_word64,
  z_array_float, z_array_double, z_array_charstr, z_array_widestr, z_array_zmap, z_array_zval,
  no_entry, entry, no_zmap, next_zmap, no_zval, next_zval, not_set, as_bool, as_int32, as_int64,
  as_uint32, as_uint64, as_float, as_double, as_string, as_metadata, as_array_int32, as_array_int64,
  as_array_uint32, as_array_uint64, as_array_float, as_array_double, as_array_string,
  as_array_metadata, as_array_metavalue, no_datum, datum, no_metadata, next_metadata, no_metavalue,
  next_metavalue,
}

-- `int64_t` passed as `int32_t`.
abbrev pub wrap_int32 : ℤ → ℤ
wrap_int32 (pos n) = to_int32 (n % 2 ^ 32)
wrap_int32 (negsuc n) = to_int32 (2 ^ 32 - 1 - n % 2 ^ 32)

-- `uint64_t` passed as `uint32_t`.
abbrev pub wrap_uint32 : ℕ → ℕ
wrap_uint32 n = n % 2 ^ 32

-- `widetombcs( codepage_utf8, ... )`, and `float` and `double` passed as `int32_t`.
module _ (to_utf8 : Wide → Bytes) (float_to_int double_to_int : ℕ → ℤ) where
  unfoldable mutual
    -- Convert( grpcttp::MetaValue&, const mtc::zval& )
    pub to_metavalue : Zval → Result MetaValue
    to_metavalue z_untyped = err (Exception.invalid_argument "Unknown value type")
    to_metavalue (z_char n) = ok (as_int32 n)
    to_metavalue (z_byte n) = ok (as_uint32 n)
    to_metavalue (z_int16 n) = ok (as_int32 n)
    to_metavalue (z_word16 n) = ok (as_uint32 n)
    to_metavalue (z_int32 n) = ok (as_int32 n)
    to_metavalue (z_word32 n) = ok (as_uint32 n)
    to_metavalue (z_int64 n) = ok (as_int64 n)
    to_metavalue (z_word64 n) = ok (as_uint32 (wrap_uint32 n))
    to_metavalue (z_float n) = ok (as_float n)
    to_metavalue (z_double n) = ok (as_double n)
    to_metavalue (z_bool b) = ok (as_bool b)
    to_metavalue (z_charstr s) = ok (as_string s)
    to_metavalue (z_widestr w) = ok (as_string (to_utf8 w))
    to_metavalue (z_zmap m) = to_metadata m >>= λ d. ok (as_metadata d)
    to_metavalue (z_array_char ns) = ok (as_array_int32 ns)
    to_metavalue (z_array_byte ns) = ok (as_array_uint32 ns)
    to_metavalue (z_array_int16 ns) = ok (as_array_int32 ns)
    to_metavalue (z_array_word16 ns) = ok (as_array_uint32 ns)
    to_metavalue (z_array_int32 ns) = ok (as_array_int32 ns)
    to_metavalue (z_array_word32 ns) = ok (as_array_uint32 ns)
    to_metavalue (z_array_int64 ns) = ok (as_array_int32 (map wrap_int32 ns))
    to_metavalue (z_array_word64 ns) = ok (as_array_uint32 (map wrap_uint32 ns))
    to_metavalue (z_array_float ns) = ok (as_array_int32 (map float_to_int ns))
    to_metavalue (z_array_double ns) = ok (as_array_int32 (map double_to_int ns))
    to_metavalue (z_array_charstr ss) = ok (as_array_string ss)
    to_metavalue (z_array_widestr ws) = ok (as_array_string (map to_utf8 ws))
    to_metavalue (z_array_zmap ms) = to_metadatas ms >>= λ ds. ok (as_array_metadata ds)
    to_metavalue (z_array_zval vs) = to_metavalues vs >>= λ xs. ok (as_array_metavalue xs)

    -- Convert( grpcttp::Metadata&, const mtc::zmap& )
    pub to_metadata : Zmap → Result Metadata
    to_metadata no_entry = ok no_datum
    to_metadata (entry (key_other n) v m) = err (Exception.invalid_argument "Invalid value type")
    to_metadata (entry (key_charstr k) v m) =
        to_metavalue v >>= λ x. to_metadata m >>= λ d. ok (datum k x d)

    -- Convert( grpcttp::array_Metadata&, const std::vector<mtc::zmap>& )
    pub to_metadatas : Zmaps → Result Metadatas
    to_metadatas no_zmap = ok no_metadata
    to_metadatas (next_zmap m ms) =
        to_metadata m >>= λ d. to_metadatas ms >>= λ ds. ok (next_metadata d ds)

    -- Convert( grpcttp::array_Metavalue&, const std::vector<mtc::zval>& )
    pub to_metavalues : Zvals → Result MetaValues
    to_metavalues no_zval = ok no_metavalue
    to_metavalues (next_zval v vs) =
        to_metavalue v >>= λ x. to_metavalues vs >>= λ xs. ok (next_metavalue x xs)

unfoldable mutual
  -- Convert( mtc::zval&, const grpcttp::MetaValue& )
  pub to_zval : MetaValue → Result Zval
  to_zval not_set = err (Exception.invalid_argument "Unknown value type")
  to_zval (as_bool b) = ok (z_bool b)
  to_zval (as_int32 n) = ok (z_int32 n)
  to_zval (as_int64 n) = ok (z_int64 n)
  to_zval (as_uint32 n) = ok (z_word32 n)
  to_zval (as_uint64 n) = ok (z_word64 n)
  to_zval (as_float n) = ok (z_float n)
  to_zval (as_double n) = ok (z_double n)
  to_zval (as_string s) = ok (z_charstr s)
  to_zval (as_metadata d) = to_zmap d >>= λ m. ok (z_zmap m)
  to_zval (as_array_int32 ns) = ok (z_array_int32 ns)
  to_zval (as_array_int64 ns) = ok (z_array_int64 ns)
  to_zval (as_array_uint32 ns) = ok (z_array_word32 ns)
  to_zval (as_array_uint64 ns) = ok (z_array_word64 ns)
  to_zval (as_array_float ns) = ok (z_array_float ns)
  to_zval (as_array_double ns) = ok (z_array_double ns)
  to_zval (as_array_string ss) = ok (z_array_charstr ss)
  to_zval (as_array_metadata ds) = to_zmaps ds >>= λ ms. ok (z_array_zmap ms)
  to_zval (as_array_metavalue xs) = to_zvals xs >>= λ vs. ok (z_array_zval vs)

  -- Convert( mtc::zmap&, const grpcttp::Metadata& )
  pub to_zmap : Metadata → Result Zmap
  to_zmap no_datum = ok no_entry
  to_zmap (datum k x d) = to_zval x >>= λ v. to_zmap d >>= λ m. ok (entry (key_charstr k) v m)

  pub to_zmaps : Metadatas → Result Zmaps
  to_zmaps no_metadata = ok no_zmap
  to_zmaps (next_metadata d ds) = to_zmap d >>= λ m. to_zmaps ds >>= λ ms. ok (next_zmap m ms)

  pub to_zvals : MetaValues → Result Zvals
  to_zvals no_metavalue = ok no_zval
  to_zvals (next_metavalue x xs) = to_zval x >>= λ v. to_zvals xs >>= λ vs. ok (next_zval v vs)
