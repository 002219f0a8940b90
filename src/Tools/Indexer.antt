-- ===== src/Tools/Indexer.antt =====
-- utils/libruseq/local-indexer.cpp: the texts that are read out of archives, and their metadata.
pub mod Texts
use palmira.Prelude.{
  ℕ, Bool, false, ◌||◌, ◌&&◌, List, [], ◌∷◌, ◌++◌, Option, none, some, ◌==◌, if◌then◌else◌,
}
use palmira.Values.{Bytes, Wide, bytes_of, key_charstr, Zmap, no_entry, entry, z_charstr}
use palmira.Document.{Paragraph, wide, coded}
use palmira.Tools.Sender.{Dirents, no_dirent, file, directory, slash}

-- `str.substr( 0, str.find_last_of( "\\/" ) + 1 )`, or nothing without a slash.
abbrev pub is_slash : ℕ → Bool
is_slash b = b == 47 || b == 92

unfoldable pub folder_of : Bytes → Option Bytes
folder_of [] = none
folder_of (b ∷ bs) = elim (folder_of bs) [
  | some f ↦ some (b ∷ f)
  | none ↦ if is_slash b then some (b ∷ []) else none
]

-- `realId`
unfoldable pub real_id : (str name : Bytes) → Bytes
unfolding folder_of
real_id str name = elim (folder_of str) [ some f ↦ f ++ name | none ↦ name ]

-- What OpenZip makes of a buffer, of any depth: an archive of entries with their names, or no archive.
mutual
  pub data Packed : Type 0 where
    no_archive : Bytes → Packed
    archive : Entries → Packed

  pub data Entries : Type 0 where
    no_entries : Entries
    entry_of : (name : Bytes) → Packed → Entries → Entries

module _ {X : Type 0} (parse_fb2 : Bytes → Option X) where
  unfoldable mutual
    -- ReadZipped: what comes into the queue, in order; a text that is refused is left out.
    pub read_zipped : Packed → (str : Bytes) → List (Bytes × X)
    read_zipped (no_archive buf) str = elim (parse_fb2 buf) [ none ↦ [] | some x ↦ (str, x) ∷ [] ]
    read_zipped (archive entries) str = read_entries entries str

    pub read_entries : Entries → (str : Bytes) → List (Bytes × X)
    read_entries no_entries str = []
    read_entries (entry_of name p rest) str =
        read_zipped p (real_id str name) ++ read_entries rest str

-- LoadString, of the blocks of the tag that was found: joined by line feeds.
module _ (from_wide : Wide → Bytes) (from_coded : ℕ → Bytes → Bytes) where
  abbrev pub block_bytes : Paragraph → Bytes
  block_bytes (wide w) = from_wide w
  block_bytes (coded encoding s) = from_coded encoding s

  unfoldable pub join_blocks : (output : Bytes) → List Paragraph → Bytes
  join_blocks output [] = output
  join_blocks [] (b ∷ bs) = join_blocks (block_bytes b) bs
  join_blocks (c ∷ output) (b ∷ bs) = join_blocks (c ∷ output ++ 10 ∷ block_bytes b) bs

  unfoldable pub load_string : Option (List Paragraph) → Bytes
  unfolding join_blocks
  load_string none = []
  load_string (some blocks) = join_blocks [] blocks

-- The author, in IndexTexts: the name, the surname and the nickname.
unfoldable pub with_surname : (author a_surn : Bytes) → Bytes
with_surname author [] = author
with_surname [] (s ∷ surn) = s ∷ surn
with_surname (a ∷ author) (s ∷ surn) = a ∷ author ++ 32 ∷ s ∷ surn

unfoldable pub with_nick : (author a_nick : Bytes) → Bytes
with_nick author [] = author
with_nick [] (n ∷ nick) = n ∷ nick
with_nick (a ∷ author) (n ∷ nick) = a ∷ author ++ bytes_of " (" ++ n ∷ nick ++ bytes_of ")"

unfoldable pub author_of : (a_name a_surn a_nick : Bytes) → Bytes
unfolding with_surname with_nick
author_of a_name a_surn a_nick = with_nick (with_surname a_name a_surn) a_nick

-- `zmdata`: a title and an author that are not empty.
abbrev pub set_text : (key value : Bytes) → Zmap → Zmap
set_text key [] m = m
set_text key (b ∷ bs) m = entry (key_charstr key) (z_charstr (b ∷ bs)) m

unfoldable pub book_metadata : (ttl a_name a_surn a_nick : Bytes) → Zmap
unfolding author_of
book_metadata ttl a_name a_surn a_nick =
    set_text (bytes_of "title") ttl
      (set_text (bytes_of "author") (author_of a_name a_surn a_nick) no_entry)

-- ListFiles, while the program goes on: the names that are put into the queue. `folder` ends in a slash.
abbrev pub is_link : Bytes → Bool
is_link (b ∷ []) = b == 46
is_link (b ∷ c ∷ []) = b == 46 && c == 46
is_link _ = false

unfoldable pub list_files : (folder : Bytes) → Dirents → List Bytes
list_files folder no_dirent = []
list_files folder (file name more) =
    let rest = list_files folder more in if is_link name then rest else (folder ++ name) ∷ rest
list_files folder (directory name inner more) =
    let rest = list_files folder more in
    let within = list_files (folder ++ name ++ slash ∷ []) inner in
    if is_link name then rest else within ++ rest
