-- ===== src/Tests/Zip.antt =====
-- A stream of five bytes, and an archive in an archive.
use palmira.Prelude.{
  ℕ, ◌≡◌, refl, inr, List, [], ◌∷◌, Option, none, some, ok, ◌==◌, if◌then◌else◌, arith,
}
use palmira.Zip.Stream.{Stm, seek_set, zip_read, zip_seek}
use palmira.Zip.Stream.Bounds.{InBounds, SeeksFromStart, stream-InBounds}
use palmira.Zip.Archive.{Member, Call, read}
use palmira.Zip.Archive.Leaves.{IsShallow, IsRead, AllLeaves, read-Reads}

abbrev within : Stm
within = record { data_ = 1 ∷ 2 ∷ 3 ∷ 4 ∷ 5 ∷ []; cpos = 3; nerr = 0 }

within-InBounds : InBounds within
within-InBounds = record { position = omega arith; size = omega arith }

stream-InBounds_example :
    ((s' : Stm) × (zip_read within 4 ≡ some (s', 4 ∷ 5 ∷ []))
      × (s'.cpos ≡ 5)
      × (s'.data_ ≡ within.data_)
      × InBounds s')
    × InBounds (zip_seek within 6 seek_set).0
    × ((zip_seek within 6 seek_set).0.data_ ≡ within.data_)
    × ((zip_seek within 6 seek_set).1 ≡ none → (zip_seek within 6 seek_set).0.cpos ≡ 3)
    × SeeksFromStart within 6
stream-InBounds_example = stream-InBounds within 4 6 seek_set within-InBounds

-- Data that begin with 80 are an archive, which holds what follows as its one file.
abbrev unzip : List ℕ → Option (List Member)
unzip [] = none
unzip (b ∷ bs) = if b == 80 then some (record { name = 97 ∷ []; contents = some bs } ∷ []) else none

nested : IsShallow unzip 2 (80 ∷ 80 ∷ 7 ∷ [])
nested = inr (
  record { name = 97 ∷ []; contents = some (80 ∷ 7 ∷ []) } ∷ [],
  refl,
  (inr (record { name = 97 ∷ []; contents = some (7 ∷ []) } ∷ [], refl, (refl, tt)), tt),
)

read-Reads_example :
    (calls : List Call) × (read unzip 3 (80 ∷ 80 ∷ 7 ∷ []) [] ≡ ok calls)
    × IsRead unzip (80 ∷ 80 ∷ 7 ∷ []) [] calls
    × AllLeaves unzip [] calls
read-Reads_example = read-Reads unzip 2 80 (80 ∷ 7 ∷ []) [] nested
