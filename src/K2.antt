-- ===== src/K2.antt =====
-- src/k2.cpp: the program that indexes the files of a directory; the walk and what becomes of a file.
pub mod Blocks
pub mod Walk
use palmira.Prelude.{
  ℕ, ◌+◌, ◌-◌, Bool, true, false, not, ◌&&◌, ◌||◌, List, [], ◌∷◌, ◌++◌, Option, none, some, ◌==◌,
  if◌then◌else◌,
}
use palmira.Values.{Bytes, bytes_of}
use palmira.Document.{same_bytes}
use palmira.Watch.{is_shown, with_slash}

-- What a directory holds: files, and directories with what `stat` says of them, none if it fails, else whether
-- its mode is that of a link.
pub data Dirents : Type 0 where
  no_dirent : Dirents
  file : (name : Bytes) → Dirents → Dirents
  directory : (name : Bytes) → (link : Option Bool) → (inner : Dirents) → Dirents → Dirents

-- `stpath.substr( stpath.rfind( '.' ) + 1 )`
unfoldable pub extension : Bytes → Option Bytes
extension [] = none
extension (b ∷ bs) = elim (extension bs) [
  | some e ↦ some e
  | none ↦ if b == 46 then some bs else none
]

unfoldable pub any_same : Bytes → List Bytes → Bool
any_same e [] = false
any_same e (x ∷ xs) = same_bytes e x || any_same e xs

unfoldable pub check_ext : Bytes → List Bytes → Bool
unfolding extension any_same
check_ext stpath extset = elim (extension stpath) [ none ↦ false | some e ↦ any_same e extset ]

abbrev pub extensions : List Bytes
extensions =
    bytes_of "h"
    ∷ bytes_of "hpp"
    ∷ bytes_of "c"
    ∷ bytes_of "cpp"
    ∷ bytes_of "cxx"
    ∷ bytes_of "txt"
    ∷ []

-- The counter of the directories that are being read, the tasks of indexQueue by their paths, in the order in
-- which they are put there, and how often the end is told of.
pub record Progress : Type 0 where
  pub counter : ℕ
  pub queue : List Bytes
  pub completed : ℕ

-- The counter at the start, of the directory that is named or of one within it, and at the end.
unfoldable pub enter : (nested : Bool) → Progress → Progress
enter false w = record w { counter = 1 }
enter true w = record w { counter = w.counter + 1 }

unfoldable pub leave : Progress → Progress
leave w =
    let c = w.counter - 1 in
    record w { counter = c; completed = if c == 0 then w.completed + 1 else w.completed }

-- The test of a directory, on Windows and elsewhere.
unfoldable pub enters : (windows : Bool) → Option Bool → Bool
enters true link = true
enters false none = false
enters false (some link) = not link

-- IndexDir, with the number of documents that the search finds by a path.
module _ (windows : Bool) (found : Bytes → ℕ) where
  unfoldable pub index_file : (stpath : Bytes) → Progress → Progress
  unfolding check_ext
  index_file stpath w =
      if check_ext stpath extensions && found stpath == 0
      then record w { queue = w.queue ++ stpath ∷ [] }
      else w

  -- The loop over the entries of `folder`; that of a directory within it is IndexDir's, between `enter` and `leave`.
  unfoldable pub index_entries : (folder : Bytes) → Dirents → Progress → Progress
  unfolding index_file enter leave enters is_shown with_slash
  index_entries folder no_dirent w = w
  index_entries folder (file name more) w =
      index_entries folder more (if is_shown name then index_file (folder ++ name) w else w)
  index_entries folder (directory name link inner more) w =
      let within = leave (index_entries (with_slash (folder ++ name)) inner (enter true w)) in
      index_entries folder more (if is_shown name && enters windows link then within else w)

  unfoldable pub index_dir : (dir : Bytes) → Dirents → Progress → Progress
  unfolding index_entries enter leave with_slash
  index_dir dir entries w = leave (index_entries (with_slash dir) entries (enter false w))

-- LoadText: the blocks that `fgets` reads into an array of which it is told 4095 bytes. A line ends after its line
-- feed, or where the array is full.
unfoldable pub last_block : (szline : Bytes) → List Bytes
last_block [] = []
last_block (c ∷ szline) = (c ∷ szline) ∷ []

unfoldable pub load_text : (room : ℕ) → (szline : Bytes) → Bytes → List Bytes
unfolding last_block
load_text room szline [] = last_block szline
load_text room szline (b ∷ bs) =
    let ended = (szline ++ b ∷ []) ∷ load_text 4094 [] bs in
    let goes_on = load_text (room - 1) (szline ++ b ∷ []) bs in
    if b == 10 || room == 1 then ended else goes_on

-- The task: what is inserted of a file, if it can be opened and has a block.
unfoldable pub insert_task : (stpath : Bytes) → Option Bytes → Option (Bytes × List Bytes)
unfolding load_text
insert_task stpath none = none
insert_task stpath (some text) = elim (load_text 4094 [] text) [
  | [] ↦ none
  | b ∷ bs ↦ some (stpath, b ∷ bs)
]
