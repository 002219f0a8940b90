-- ===== src/Values.antt =====
-- The values of the program's messages: mtc::zval and mtc::zmap, as the sources use them, and the
-- MetaValue and Metadata of the gRPC protocol. A map is the list of its entries, no two with one key,
-- in the order in which it is walked. `float` and `double` are their bits; signed types hold a ℤ.
use Prim.Native.Char.{code}
use Prim.Native.String.{String}
use palmira.Prelude.{ℕ, Bool, List, [], ◌∷◌}
use palmira.Prelude.Int.{ℤ}

-- A string of bytes, `mtc::charstr`, and one of wide characters, `mtc::widestr`.
abbrev pub Bytes : Type 0
Bytes = List ℕ

abbrev pub Wide : Type 0
Wide = List ℕ

-- The bytes of a text of the source.
abbrev pub bytes_of : String → Bytes
bytes_of String.[] = []
bytes_of (String.◌∷◌ c s) = code c ∷ bytes_of s

-- mtc::zmap::key: a string of bytes, or something else.
pub data Key : Type 0 where
  key_charstr : Bytes → Key
  key_other : ℕ → Key

mutual
  pub data Zval : Type 0 where
    z_untyped : Zval
    z_char z_int16 z_int32 z_int64 : ℤ → Zval
    z_byte z_word16 z_word32 z_word64 z_float z_double : ℕ → Zval
    z_bool : Bool → Zval
    z_charstr : Bytes → Zval
    z_widestr : Wide → Zval
    z_zmap : Zmap → Zval
    z_array_char z_array_int16 z_array_int32 z_array_int64 : List ℤ → Zval
    z_array_byte z_array_word16 z_array_word32 z_array_word64 : List ℕ → Zval
    z_array_float z_array_double : List ℕ → Zval
    z_array_charstr : List Bytes → Zval
    z_array_widestr : List Wide → Zval
    z_array_zmap : Zmaps → Zval
    z_array_zval : Zvals → Zval

  pub data Zmap : Type 0 where
    no_entry : Zmap
    entry : Key → Zval → Zmap → Zmap

  pub data Zmaps : Type 0 where
    no_zmap : Zmaps
    next_zmap : Zmap → Zmaps → Zmaps

  pub data Zvals : Type 0 where
    no_zval : Zvals
    next_zval : Zval → Zvals → Zvals

mutual
  pub data MetaValue : Type 0 where
    not_set : MetaValue
    as_bool : Bool → MetaValue
    as_int32 as_int64 : ℤ → MetaValue
    as_uint32 as_uint64 as_float as_double : ℕ → MetaValue
    as_string : Bytes → MetaValue
    as_metadata : Metadata → MetaValue
    as_array_int32 as_array_int64 : List ℤ → MetaValue
    as_array_uint32 as_array_uint64 as_array_float as_array_double : List ℕ → MetaValue
    as_array_string : List Bytes → MetaValue
    as_array_metadata : Metadatas → MetaValue
    as_array_metavalue : MetaValues → MetaValue

  pub data Metadata : Type 0 where
    no_datum : Metadata
    datum : Bytes → MetaValue → Metadata → Metadata

  pub data Metadatas : Type 0 where
    no_metadata : Metadatas
    next_metadata : Metadata → Metadatas → Metadatas

  pub data MetaValues : Type 0 where
    no_metavalue : MetaValues
    next_metavalue : MetaValue → MetaValues → MetaValues
