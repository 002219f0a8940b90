-- ===== src/Arguments.antt =====
-- src/toolset/z-arguments.cpp: the arguments of a request, out of a map.
pub mod Body
use palmira.Prelude.{ℕ, List, [], ◌∷◌, Option, none, some, Result, ok, err, Exception, ◌>>=◌}
use palmira.Values.{Bytes, Zval, Zmap, no_entry, z_charstr, z_zmap, z_array_char, z_array_byte}
use palmira.Prelude.Int.{ℤ}

-- The keys that the constructors look up.
pub data Name : Type 0 where
  timeout id version claim condition metadata json tags zmap dump : Name

-- A map, by its lookups.
abbrev pub Args : Type 0
Args = Name → Option Zval

-- `get_charstr( key )` and `get_zmap( key )`: the value, if it is there and has the type.
abbrev pub as_charstr : Option Zval → Option Bytes
as_charstr (some (z_charstr s)) = some s
as_charstr _ = none

abbrev pub as_zmap : Option Zval → Option Zmap
as_zmap (some (z_zmap m)) = some m
as_zmap _ = none

-- AccessArgs::AccessArgs
unfoldable pub access_args : Args → Result Bytes
access_args args = elim (as_charstr (args Name.id)) [
  | none ↦ err (Exception.invalid_argument "absent object 'id'")
  | some s ↦ elim s [
    | [] ↦ err (Exception.invalid_argument "absent object 'id'")
    | (b ∷ bs) ↦ ok (b ∷ bs)
  ]
]

-- RemoveArgs
pub record RemoveArgs : Type 0 where
  pub object_id : Bytes
  pub version : ℕ
  pub if_clause : Option Zval

-- RemoveArgs::RemoveArgs; `to_word64` is mtc's conversion. The clause is read under "condition" if
-- "claim" is there, through a pointer that is null if "condition" is not.
unfoldable pub remove_args : (Zval → Option ℕ) → Args → Result RemoveArgs
unfolding access_args
remove_args to_word64 args = access_args args >>= λ s.
    let number : ℕ = elim (args Name.version) [
      | none ↦ 0
      | some v ↦ elim (to_word64 v) [ none ↦ 0 | some n ↦ n ]
    ] in
    elim (args Name.claim) [
      | none ↦ ok (record { object_id = s; version = number; if_clause = none })
      | some c ↦ elim (args Name.condition) [
        | none ↦ err Exception.undefined
        | some v ↦ ok (record { object_id = s; version = number; if_clause = some v })
      ]
    ]

-- UpdateArgs::UpdateArgs
unfoldable pub update_args : (Zval → Option ℕ) → Args → Result (RemoveArgs × Zmap)
unfolding remove_args
update_args to_word64 args = remove_args to_word64 args >>= λ r.
    elim (as_zmap (args Name.metadata)) [ none ↦ ok (r, no_entry) | some m ↦ ok (r, m) ]

-- DeliriX's readers of documents `X`, and `FetchFrom` of a map.
pub record Readers (X : Type 0) : Type 0 where
  pub load_json : Bytes → Result X
  pub load_tags : Bytes → Result X
  pub fetch_zmap : Zmap → Result X
  pub fetch_chars : List ℤ → Result X
  pub fetch_bytes : List ℕ → Result X

module _ {X : Type 0} (read : Readers X) where
  -- The branch of LoadBody for "dump".
  unfoldable pub load_dump : Option Zval → Result X
  load_dump none =
      err (Exception.invalid_argument "no document data as 'json', 'tags', 'dump' or 'zmap'")
  load_dump (some (z_array_char cs)) = read.fetch_chars cs
  load_dump (some (z_array_byte bs)) = read.fetch_bytes bs
  load_dump (some _) =
      err (Exception.invalid_argument "document 'dump' has to be array of char or byte")

  -- InsertArgs::LoadBody
  unfoldable pub load_body : Args → Result X
  unfolding load_dump
  load_body args = elim (as_charstr (args Name.json)) [
    | some s ↦ read.load_json s
    | none ↦ elim (as_charstr (args Name.tags)) [
      | some s ↦ read.load_tags s
      | none ↦ elim (as_zmap (args Name.zmap)) [
        | some m ↦ read.fetch_zmap m
        | none ↦ load_dump (args Name.dump)
      ]
    ]
  ]

  -- InsertArgs::InsertArgs
  unfoldable pub insert_args : (Zval → Option ℕ) → Args → Result (RemoveArgs × Zmap × X)
  unfolding update_args load_body
  insert_args to_word64 args =
      update_args to_word64 args >>= λ (r, m). load_body args >>= λ x. ok (r, m, x)
