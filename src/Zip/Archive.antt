-- ===== src/Zip/Archive.antt =====
-- src/objects/read-zip.cpp, minizip::Read: each file of an archive is read in turn, and what is no
-- archive is passed to `fnTxt`, with the names that lead to it.
pub mod Leaves
use palmira.Prelude.{
  ℕ, zero, suc, ◌+◌, List, [], ◌∷◌, ◌++◌, Option, none, some, Result, ok, err, Exception, ◌>>=◌,
}

-- A file in an archive, by what minizip reads of it: nothing if its information or itself cannot be
-- opened.
pub record Member : Type 0 where
  pub name : List ℕ
  pub contents : Option (List ℕ)

-- One call of `fnTxt`.
pub record Call : Type 0 where
  pub input : List ℕ
  pub names : List (List ℕ)

-- minizip, which is not part of the repository: the files of an archive, or none if it is none.
module _ (unzip : List ℕ → Option (List Member)) where
  -- The loop over the files, where `read_one` is the recursive call.
  unfoldable pub read_members :
      (List ℕ → List (List ℕ) → Result (List Call))
      → List (List ℕ)
      → List Member
      → Result (List Call)
  read_members read_one names [] = ok []
  read_members read_one names (m ∷ ms) =
      let rest = read_members read_one names ms in
      elim m.contents [
        | none ↦ rest
        | some bytes ↦ elim bytes [
          | [] ↦ rest
          | (b ∷ bs) ↦ read_one (b ∷ bs) (names ++ m.name ∷ []) >>= λ calls.
              rest >>= λ more. ok (calls ++ more)
        ]
      ]

  -- minizip::Read, on fuel for the depth of the nesting: the calls of `fnTxt`, in their order.
  unfoldable pub read : ℕ → List ℕ → List (List ℕ) → Result (List Call)
  unfolding read_members
  read zero input names = err Exception.out_of_fuel
  read (suc fuel) [] names =
      err (Exception.invalid_argument "empty minizip::Read( ...input ... ) parameter")
  read (suc fuel) (b ∷ bs) names = elim (unzip (b ∷ bs)) [
    | none ↦ ok (record { input = b ∷ bs; names = names } ∷ [])
    | some members ↦ read_members (read fuel) names members
  ]
