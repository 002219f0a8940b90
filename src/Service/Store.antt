-- ===== src/Service/Store.antt =====
-- src/service/structo-search.cpp, the class `StructoSearch`: what changes the index. An operation
-- takes the state of the service and gives the next one, with a report or an exception.
pub mod Laws
pub mod History
pub mod Opened
use Prim.Native.String.{String}
use palmira.Prelude.{
  ℕ, ◌+◌, ◌-◌, Bool, true, false, List, [], ◌∷◌, Option, none, some, ltb, ◌==◌, if◌then◌else◌,
  length, Result, ok, err, Exception, ◌>>=◌,
}
use palmira.Service.Zip.{Zlib, zip_buf}

-- A string of bytes, `std::string` and `mtc::charstr`.
abbrev pub Bytes : Type 0
Bytes = List ℕ

-- structo's entity: what the service reads of it.
pub record Entity : Type 0 where
  pub id : Bytes
  pub extra : Option Bytes
  pub bundle : Option Bytes

-- structo's IContentsIndex, which is not part of the repository, over its states `S`. `C` stands for
-- the contents of a document. An operation gives the next state, also if it throws.
pub record Index (S C : Type 0) : Type 0 where
  pub get_entity : S → Bytes → Option Entity
  pub set_entity : S → Bytes → Option C → Bytes → Bytes → S × Result Entity
  pub set_extras : S → Bytes → Bytes → S × Result (Option Entity)
  pub del_entity : S → Bytes → S × Result Bool
  pub commit : S → S

-- The names of the fields of a bundle: "ft", "ip" and "im".
pub data Field : Type 0 where
  ft ip im : Field

-- What the service uses of structo's word breaker and image packer and of mtc's maps `M`: `image`
-- stands for WordBreak, SetMarkup, Lemmatize and the packing of markup and tokens.
pub record Tools (M X F C : Type 0) : Type 0 where
  pub image : F → X → Result (Bytes × Bytes)
  pub contents : F → X → Result C
  pub is_wide : X → Bool
  pub copy_utf16 : X → X
  pub serialize : M → Bytes
  pub fetch : Bytes → M
  pub no_data : M
  pub pack : List (Field × Bytes) → Bytes
  pub find : Bytes → Field → Option (Bool × Bytes)
  pub save_fields : F → Bytes
  pub zlib : Zlib

-- The members of StructoSearch.
pub record State (S F : Type 0) : Type 0 where
  pub index : S
  pub fields : F
  pub modified : Bool
  pub ref_count : ℕ
  pub alive : Bool

-- UpdateReport: the status, and the metadata if there is any.
pub record Report (M : Type 0) : Type 0 where
  pub code : ℕ
  pub info : String
  pub metadata : Option M

abbrev pub enoent : ℕ
enoent = 2

abbrev pub efault : ℕ
efault = 14

abbrev pub einval : ℕ
einval = 22

-- "##__index_mappings__##"
abbrev pub mappings_key : Bytes
mappings_key =
    35 ∷ 35 ∷ 95 ∷ 95 ∷ 105 ∷ 110 ∷ 100 ∷ 101 ∷ 120 ∷ 95 ∷ 109 ∷ 97 ∷ 112 ∷ 112 ∷ 105 ∷ 110 ∷ 103
    ∷ 115 ∷ 95 ∷ 95 ∷ 35 ∷ 35 ∷ []

-- Arguments of a request: InsertArgs, with its text; UpdateArgs; RemoveArgs.
pub record InsertArgs (M X : Type 0) : Type 0 where
  pub object_id : Bytes
  pub metadata : M
  pub textview : X

pub record UpdateArgs (M : Type 0) : Type 0 where
  pub object_id : Bytes
  pub metadata : M

pub record RemoveArgs : Type 0 where
  pub object_id : Bytes

module _ {M : Type 0} where
  -- The `catch` clauses of Update and Remove.
  unfoldable pub caught : Result (Report M) → Result (Report M)
  caught (ok r) = ok r
  caught (err (Exception.invalid_argument what)) =
      ok (record { code = einval; info = what; metadata = none })
  caught (err (Exception.parse_error what)) =
      ok (record { code = einval; info = what; metadata = none })
  caught (err e) = err e

  -- Those of Insert.
  unfoldable pub caught_insert : Result (Report M) → Result (Report M)
  unfolding caught
  caught_insert (ok r) = ok r
  caught_insert (err (Exception.bad_function_call what)) =
      ok (record { code = efault; info = what; metadata = none })
  caught_insert (err e) = caught (err e)

module _ {S M X F C : Type 0} (ix : Index S C) (tools : Tools M X F C) where
  -- DumpMetadata: whether the buffer of 0x400 bytes on the stack is too small, and what is written.
  unfoldable pub dump_metadata : M → Bool × Bytes
  dump_metadata m = (ltb 0x400 (length (tools.serialize m)), tools.serialize m)

  -- LoadMetadata
  unfoldable pub load_metadata : Option Bytes → M
  load_metadata none = tools.no_data
  load_metadata (some []) = tools.no_data
  load_metadata (some (b ∷ bs)) = tools.fetch (b ∷ bs)

  -- The quotation image: compressed under "ip", or as it is under "im" if compression fails or does
  -- not pay.
  unfoldable pub make_bundle : Bytes → Bytes → Bytes
  make_bundle markup limage = elim (zip_buf tools.zlib limage) [
    | ok packed ↦ tools.pack ((ft, markup) ∷ (ip, packed) ∷ [])
    | err e ↦ tools.pack ((ft, markup) ∷ (im, limage) ∷ [])
  ]

  -- `Immediate( UpdateReport{ 0, "OK", { { "metadata", ... } } } )`
  unfoldable pub updated : Entity → Report M
  unfolding load_metadata
  updated e = record { code = 0; info = "OK"; metadata = some (load_metadata e.extra) }

  -- The report with the index's new state; `modified` is set if nothing was thrown.
  unfoldable pub stored : State S F → S × Result Entity → State S F × Result (Report M)
  unfolding updated
  stored s (index, ok e) = (record s { index = index; modified = true }, ok (updated e))
  stored s (index, err x) = (record s { index = index }, err x)

  -- The text in UTF-16, and what is made of it.
  unfoldable pub prepare : State S F → InsertArgs M X → Result (Bytes × C)
  unfolding make_bundle
  prepare s args =
      let text =
        if tools.is_wide args.textview then args.textview else tools.copy_utf16 args.textview in
      tools.image s.fields text >>= λ image.
      tools.contents s.fields text >>= λ contents. ok (make_bundle image.0 image.1, contents)

  -- StructoSearch::Insert
  unfoldable pub insert : InsertArgs M X → State S F → State S F × Result (Report M)
  unfolding prepare dump_metadata stored caught_insert
  insert args s = elim (prepare s args) [
    | err e ↦ (s, caught_insert (err e))
    | ok (bundle, contents) ↦
        let (s', report) : State S F × Result (Report M) = stored s (
          ix.set_entity s.index args.object_id (some contents) (dump_metadata args.metadata).1
            bundle) in
        (s', caught_insert report)
  ]

  -- StructoSearch::Update
  unfoldable pub update : UpdateArgs M → State S F → State S F × Result (Report M)
  unfolding dump_metadata updated caught
  update args s =
      let (index, r) : S × Result (Option Entity) =
        ix.set_extras s.index args.object_id (dump_metadata args.metadata).1 in
      elim r [
        | err e ↦ (record s { index = index }, caught (err e))
        | ok none ↦ (
          record s { index = index },
          ok (record { code = enoent; info = "document not found"; metadata = none }),
        )
        | ok (some e) ↦ (record s { index = index; modified = true }, ok (updated e))
      ]

  -- StructoSearch::Remove
  unfoldable pub remove : RemoveArgs → State S F → State S F × Result (Report M)
  unfolding caught
  remove args s =
      let (index, r) : S × Result Bool = ix.del_entity s.index args.object_id in
      elim r [
        | err e ↦ (record s { index = index }, caught (err e))
        | ok true ↦ (
          record s { index = index; modified = true },
          ok (record { code = 0; info = "OK"; metadata = none }),
        )
        | ok false ↦ (
          record s { index = index },
          ok (record { code = enoent; info = "document not found"; metadata = none }),
        )
      ]

  -- StructoSearch::Commit. An exception of SetEntity leaves it.
  unfoldable pub commit : State S F → State S F × Result (Unit {0})
  commit s = elim s.modified [
    | false ↦ (record s { index = ix.commit s.index }, ok tt)
    | true ↦
        let (index, r) : S × Result Entity =
          ix.set_entity s.index mappings_key none (tools.save_fields s.fields) [] in
        elim r [
          | err e ↦ (record s { index = index }, err e)
          | ok e ↦ (record s { index = ix.commit index; modified = false }, ok tt)
        ]
  ]

  -- StructoSearch::Attach and Detach. `delete this` comes only after a Commit that has not thrown.
  unfoldable pub attach : State S F → State S F × ℕ
  attach s = (record s { ref_count = s.ref_count + 1 }, s.ref_count + 1)

  unfoldable pub detach : State S F → State S F × Result ℕ
  unfolding commit
  detach s =
      let s1 : State S F = record s { ref_count = s.ref_count - 1 } in
      if s1.ref_count == 0
      then (let (s2, r) : State S F × Result (Unit {0}) = commit s1 in
          elim r [ err e ↦ (s2, err e) | ok _ ↦ (record s2 { alive = false }, ok 0) ])
      else (s1, ok s1.ref_count)
