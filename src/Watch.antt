-- ===== src/Watch.antt =====
-- src/watchFs/watchFs-nix.cpp: the watching of directories by inotify.
pub mod Events
pub mod Windows
use palmira.Prelude.{
  ℕ, Bool, true, false, not, List, [], ◌∷◌, ◌++◌, Option, none, some, ◌==◌, ◌||◌, if◌then◌else◌,
  Result, ok, err, Exception,
}
use palmira.Values.{Bytes}
use palmira.Document.{same_bytes}

-- WatchData::watchSet, from numbers of watches to directories; no number is there twice.
abbrev pub WatchSet : Type 0
WatchSet = List (ℕ × Bytes)

unfoldable pub find : ℕ → WatchSet → Option Bytes
find wd [] = none
find wd ((i, dir) ∷ set) = let rest = find wd set in if i == wd then some dir else rest

-- `emplace`, which leaves a number that is there as it is.
unfoldable pub emplace : ℕ → Bytes → WatchSet → WatchSet
unfolding find
emplace wd dir set = elim (find wd set) [ none ↦ (wd, dir) ∷ set | some d ↦ set ]

unfoldable pub erase : ℕ → WatchSet → WatchSet
erase wd [] = []
erase wd ((i, dir) ∷ set) = let rest = erase wd set in if i == wd then rest else (i, dir) ∷ rest

-- The directories in a directory.
pub data Folders : Type 0 where
  no_folder : Folders
  folder : Bytes → Folders → Folders → Folders

abbrev pub slash : ℕ
slash = 47

-- "/dev", "/run", "/var/run", "/proc", and "/snap/sys", of "/snap" and "/sys" without a comma.
abbrev pub ignored : List Bytes
ignored =
    (47 ∷ 100 ∷ 101 ∷ 118 ∷ [])
    ∷ (47 ∷ 114 ∷ 117 ∷ 110 ∷ [])
    ∷ (47 ∷ 118 ∷ 97 ∷ 114 ∷ 47 ∷ 114 ∷ 117 ∷ 110 ∷ [])
    ∷ (47 ∷ 112 ∷ 114 ∷ 111 ∷ 99 ∷ [])
    ∷ (47 ∷ 115 ∷ 110 ∷ 97 ∷ 112 ∷ 47 ∷ 115 ∷ 121 ∷ 115 ∷ [])
    ∷ []

unfoldable pub is_ignored : List Bytes → Bytes → Bool
unfolding same_bytes
is_ignored [] dir = false
is_ignored (d ∷ ds) dir = same_bytes dir d || is_ignored ds dir

-- `if ( dir.length() != 0 && dir.back() != '/' ) dir += '/';`
unfoldable pub with_slash : Bytes → Bytes
with_slash [] = []
with_slash (b ∷ []) = if b == slash then b ∷ [] else b ∷ slash ∷ []
with_slash (b ∷ c ∷ bs) = b ∷ with_slash (c ∷ bs)

-- `*dirent.string() != '.'`
unfoldable pub is_shown : Bytes → Bool
is_shown [] = true
is_shown (b ∷ bs) = not (b == 46)

-- inotify_add_watch, by path: the number of the watch, or none if it fails.
module _ (add : Bytes → Option ℕ) where
  -- WatchDir::AddWatch, where `loop` goes through the directories in the directory.
  unfoldable pub add_one : (Bytes → WatchSet → WatchSet) → Bytes → WatchSet → WatchSet
  unfolding is_ignored emplace with_slash
  add_one loop dir set = elim (is_ignored ignored dir) [
    | true ↦ set
    | false ↦ elim (add (with_slash dir)) [
      | none ↦ set
      | some wd ↦ loop (with_slash dir) (emplace wd (with_slash dir) set)
    ]
  ]

  -- The loop over the directories in `dir`.
  unfoldable pub add_folders : Bytes → Folders → WatchSet → WatchSet
  unfolding is_shown add_one
  add_folders dir no_folder set = set
  add_folders dir (folder name inside rest) set =
      let added =
        add_folders dir rest (add_one (λ d s. add_folders d inside s) (dir ++ name) set) in
      let left = add_folders dir rest set in if is_shown name then added else left

  -- WatchDir::AddWatch with subdirectories.
  unfoldable pub add_watch : Bytes → Folders → WatchSet → WatchSet
  unfolding add_folders add_one
  add_watch dir inside set = add_one (λ d s. add_folders d inside s) dir set

-- An inotify_event: the watch, the name if it has one, and the flags of its mask that are tested.
pub record Event : Type 0 where
  pub wd : ℕ
  pub name : Option Bytes
  pub is_dir : Bool
  pub created : Bool
  pub modified : Bool
  pub deleted : Bool
  pub moved_from : Bool
  pub moved_to : Bool

-- The calls of `notifyFn`.
pub data Notice : Type 0 where
  create_file modify_file delete_file : Bytes → Notice

-- The tests of the mask of a file's event.
unfoldable pub file_notices : Event → Bytes → List Notice
file_notices e path =
    if e.created
    then create_file path ∷ []
    else if e.modified
    then modify_file path ∷ []
    else if e.deleted
    then delete_file path ∷ []
    else if e.moved_from
    then delete_file path ∷ []
    else if e.moved_to
    then create_file path ∷ []
    else []

module _ (add : Bytes → Option ℕ) (inside : Bytes → Folders) where
  -- The tests of the mask of a directory's event. `inside` is what a new directory holds.
  unfoldable pub directory_event : Event → Bytes → WatchSet → Result WatchSet
  unfolding erase add_watch
  directory_event e path set =
      if e.created
      then ok (add_watch add path (inside path) set)
      else if e.modified
      then err (Exception.runtime_error "--- not supported ---")
      else if e.deleted
      then ok (erase e.wd set)
      else ok set

  -- One round of the loop of DirWatch.
  unfoldable pub handle : Event → WatchSet → Result (WatchSet × List Notice)
  unfolding directory_event file_notices find
  handle e set = elim e.name [
    | none ↦ ok (set, [])
    | some name ↦ elim (find e.wd set) [
      | none ↦ ok (set, [])
      | some dir ↦ elim e.is_dir [
        | true ↦ elim (directory_event e (dir ++ name) set) [
          | err x ↦ err x
          | ok set' ↦ ok (set', [])
        ]
        | false ↦ ok (set, file_notices e (dir ++ name))
      ]
    ]
  ]
