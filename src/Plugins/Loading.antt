-- ===== src/Plugins/Loading.antt =====
-- src/toolset/plugins.cpp: the loading of shared libraries by their paths.
pub mod Once
use palmira.Prelude.{
  ℕ, ◌+◌, Bool, true, false, ◌||◌, List, [], ◌∷◌, ◌++◌, length, Option, none, some, ltb, leb, ◌==◌,
  if◌then◌else◌, Result, ok, err, Exception,
}
use palmira.Values.{Bytes}
use palmira.Document.{same_bytes}

abbrev pub is_slash : ℕ → Bool
is_slash b = b == 47 || b == 92

-- What stands before the last slash, and from it on.
unfoldable pub split_last : Bytes → Option (Bytes × Bytes)
split_last [] = none
split_last (b ∷ bs) = elim (split_last bs) [
  | some p ↦ some (b ∷ p.0, p.1)
  | none ↦ if is_slash b then some ([], b ∷ bs) else none
]

unfoldable pub skip_slashes : Bytes → Bytes
skip_slashes [] = []
skip_slashes (b ∷ bs) = let rest = skip_slashes bs in if is_slash b then rest else b ∷ bs

-- `getdir`, cut at the last slash, and what `pslash` points to at the end. Without a slash, and with one that is the first
-- character alone, the directory is empty.
unfoldable pub dir_part : Bytes → Bytes
unfolding split_last
dir_part psz = elim (split_last psz) [ none ↦ [] | some p ↦ p.0 ]

unfoldable pub name_part : Bytes → Bytes
unfolding split_last skip_slashes
name_part psz = elim (split_last psz) [ none ↦ psz | some p ↦ skip_slashes p.1 ]

-- `getcwd` into an array of 0x400 bytes: if the directory does not fit, what is read of the array has no value.
unfoldable pub getcwd : Bytes → Result Bytes
getcwd cwd = if ltb (length cwd) 0x400 then ok cwd else err Exception.undefined

-- The end of fullpath: the path, if it fits into `cch` bytes with a slash and a zero.
unfoldable pub joined_path : (cch : ℕ) → (newdir name : Bytes) → Option Bytes
joined_path cch newdir name =
    if ltb cch (length newdir + 2 + length name) then none else some (newdir ++ 47 ∷ name)

-- `chdir`: where it leads from a directory, if it leads anywhere.
module _ (chdir : (cwd dir : Bytes) → Option Bytes) where
  -- The directory of `getdir`, and the current one after the way there and back.
  unfoldable pub enter_dir : (curdir getdir : Bytes) → Option Bytes × Bytes
  enter_dir curdir [] = (some curdir, curdir)
  enter_dir curdir (b ∷ bs) = elim (chdir curdir (b ∷ bs)) [
    | none ↦ (none, curdir)
    | some d ↦ (some d, elim (chdir d curdir) [ none ↦ d | some back ↦ back ])
  ]

  -- fullpath, with the current directory after it.
  unfoldable pub fullpath : (cch : ℕ) → (cwd : Bytes) → Option Bytes → Result (Option Bytes) × Bytes
  unfolding dir_part name_part getcwd joined_path enter_dir
  fullpath cch cwd none = (ok none, cwd)
  fullpath cch cwd (some psz) =
      if leb 0x400 (length psz) then (ok none, cwd) else elim (getcwd cwd) [
        | err e ↦ (err e, cwd)
        | ok curdir ↦
            let (newdir, back) = enter_dir curdir (dir_part psz) in
            elim newdir [
              | none ↦ (ok none, back)
              | some d ↦ elim (getcwd d) [
                | err e ↦ (err e, back)
                | ok there ↦ (ok (joined_path cch there (name_part psz)), back)
              ]
            ]
      ]

-- The libraries by their paths.
unfoldable pub find_library : {L : Type 0} → Bytes → List (Bytes × L) → Option L
unfolding same_bytes
find_library path [] = none
find_library path ((p, l) ∷ ls) =
    let rest = find_library path ls in if same_bytes p path then some l else rest

-- The libraries that are kept, and the paths of the calls of SharedLibrary::Load that have succeeded, the last
-- first: what the process has loaded.
pub record Libraries (L : Type 0) : Type 0 where
  pub modules : List (Bytes × L)
  pub loads : List Bytes

module _ {L : Type 0} (load_library : Bytes → Result L) where
  -- SharedLibrary::Load and the insertion behind it.
  unfoldable pub load_new : Bytes → Libraries L → Result L × Libraries L
  load_new path s = elim (load_library path) [
    | err e ↦ (err e, s)
    | ok l ↦ (ok l, record { modules = (path, l) ∷ s.modules; loads = path ∷ s.loads })
  ]

  -- The call under the lock: the library, and the libraries after it.
  unfoldable pub module_of : Bytes → Libraries L → Result L × Libraries L
  unfolding find_library load_new
  module_of path s = elim (find_library path s.modules) [
    | some l ↦ (ok l, s)
    | none ↦ load_new path s
  ]

  module _ {F : Type 0} (chdir : (cwd dir : Bytes) → Option Bytes)
      (find_function : L → Bytes → Result F) where
    -- LoadModule, between current directories of the process and libraries.
    unfoldable pub load_module :
        (path : Option Bytes) (name : Bytes) → Bytes × Libraries L → Result F × Bytes × Libraries L
    unfolding fullpath module_of
    load_module path name (cwd, s) =
        let (full, back) = fullpath chdir 1024 cwd path in
        elim full [
          | err e ↦ (err e, back, s)
          | ok f ↦ elim f [
            | none ↦ (err (Exception.invalid_argument "invalid library path"), back, s)
            | some p ↦
                let (loaded, s') = module_of p s in
                elim loaded [ err e ↦ (err e, back, s') | ok l ↦ (find_function l name, back, s') ]
          ]
        ]
