-- ===== src/Service/Search.antt =====
-- src/service/structo-search.cpp, StructoSearch::Search: by identifier or by query.
pub mod Image
pub mod Answers
pub mod Page
use Prim.Native.String.{String}
use palmira.Prelude.{
  ℕ, ◌+◌, ◌-◌, ◌%◌, ◌^◌, Bool, true, false, List, [], ◌∷◌, Option, none, some, length, Result, ok,
  err, Exception, ◌>>=◌,
}
use palmira.Prelude.Int.{ℤ, pos, negsuc}
use palmira.Service.Zip.{unpack}
use palmira.Service.Store.{Field, ft, ip, im, Bytes, Entity, Index, Tools, State, enoent, einval}

-- SearchReport: the status, and what a search adds to it.
pub data Found (R : Type 0) : Type 0 where
  nothing : Found R
  one_document : Bytes → Found R
  none_found : Found R
  page : R → Found R

pub record SearchReport (R : Type 0) : Type 0 where
  pub code : ℕ
  pub info : String
  pub found : Found R

-- The value of "id" in a query, by its type.
pub data IdValue : Type 0 where
  charstr : Bytes → IdValue
  widestr : List ℕ → IdValue
  other_type : IdValue

module _ {M X F C : Type 0} (tools : Tools M X F C) where
  -- A field of a bundle, which has to be an array of char.
  unfoldable pub read_field : Bytes → Field → Result (Option Bytes)
  read_field bundle key = elim (tools.find bundle key) [
    | none ↦ ok none
    | some (false, data_) ↦ err (Exception.runtime_error "invalid object package format")
    | some (true, data_) ↦ ok (some data_)
  ]

  -- The text of a bundle: compressed under "ip", else under "im".
  unfoldable pub read_text : ℕ → Bytes → Result Bytes
  unfolding read_field
  read_text fuel bundle = read_field bundle ip >>= λ packed. elim packed [
    | some data_ ↦ unpack tools.zlib fuel data_
    | none ↦ read_field bundle im >>= λ plain. elim plain [ some data_ ↦ ok data_ | none ↦ ok [] ]
  ]

  -- The markup of a bundle, empty if there is none.
  unfoldable pub read_markup : Bytes → Result Bytes
  unfolding read_field
  read_markup bundle = read_field bundle ft >>= λ m. elim m [ some data_ ↦ ok data_ | none ↦ ok [] ]

  -- The lambda `quotate`: what the quotation machine `quote` makes of text, markup and abstract, if
  -- there is a text.
  unfoldable pub quotate :
      {A Q : Type 0} → ℕ → (Bytes → Bytes → A → Q) → Option Entity → A → Result (Option Q)
  unfolding read_text read_markup
  quotate fuel quote entity abstr = elim entity [
    | none ↦ ok none
    | some e ↦ elim e.bundle [
      | none ↦ ok none
      | some bundle ↦ read_markup bundle >>= λ mkup. read_text fuel bundle >>= λ text. elim text [
        | [] ↦ ok none
        | (b ∷ bs) ↦ ok (some (quote (b ∷ bs) mkup abstr))
      ]
    ]
  ]

-- get_string; `to_utf8` stands for codepages::widetombcs.
unfoldable pub get_string : (List ℕ → Bytes) → IdValue → Bytes
get_string to_utf8 (charstr s) = s
get_string to_utf8 (widestr w) = to_utf8 w
get_string to_utf8 other_type = []

-- `int32_t` passed as `uint32_t`.
unfoldable pub to_uint32 : ℤ → ℕ
to_uint32 (pos n) = n % 2 ^ 32
to_uint32 (negsuc n) = 2 ^ 32 - 1 - n % 2 ^ 32

module _ {S F C R : Type 0} (ix : Index S C) where
  -- A search by identifier.
  unfoldable pub search_by_id : (List ℕ → Bytes) → IdValue → State S F → SearchReport R
  unfolding get_string
  search_by_id to_utf8 v s = elim (get_string to_utf8 v) [
    | [] ↦ record {
      code = einval;
      info = "invalid 'id' data type, string expected";
      found = nothing;
    }
    | (b ∷ bs) ↦ elim (ix.get_entity s.index (b ∷ bs)) [
      | some e ↦ record { code = 0; info = "OK"; found = one_document e.id }
      | none ↦ record { code = enoent; info = "document not found"; found = nothing }
    ]
  ]

  -- StructoSearch::Search. `id` is the value of "id" if the query is a map that has one; `first` and
  -- `count` are those of the order. `configure` makes a collector, `build` the request if there is
  -- one, and `run` searches and reports.
  unfoldable pub search :
      {D Q : Type 0}
      → (List ℕ → Bytes)
      → Option IdValue
      → ℤ
      → ℤ
      → (ℕ → ℕ → Result D)
      → Result (Option Q)
      → (D → Q → Result R)
      → State S F
      → Result (SearchReport R)
  unfolding search_by_id to_uint32
  search to_utf8 (some v) first count configure build run s = ok (search_by_id to_utf8 v s)
  search to_utf8 none first count configure build run s =
      configure (to_uint32 first) (to_uint32 count) >>= λ d. build >>= λ request. elim request [
        | none ↦ ok (record { code = 0; info = "OK"; found = none_found })
        | some q ↦ run d q >>= λ r. ok (record { code = 0; info = "OK"; found = page r })
      ]
