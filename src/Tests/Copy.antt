-- ===== src/Tests/Copy.antt =====
-- The copy of an abstract of five entries.
use palmira.Prelude.{ℕ, ◌+◌, ◌≡◌, refl, min, List, [], ◌∷◌, ltb, length}
use palmira.Sorting.{sort}
use palmira.Sorting.Laws.{IsSorted}
use palmira.Sorting.Top.{IsTop}
use palmira.Collect.Quotes.Copy.{EntryPos, EntrySet, rich, copy_abstract}
use palmira.Collect.Quotes.Copy.Best.{heavier}
use palmira.Collect.Quotes.Copy.Spread.{by_key, total, AreCopied, copy_abstract_lem}
use palmira.Tests.Collect.{ltb-IsLinear}

abbrev entry : ℕ → ℕ → List (EntryPos ℕ) → EntrySet ℕ ℕ
entry w at spread = record { weight = w; u_min = at; u_max = at + 1; spread = spread }

abbrev place : ℕ → EntryPos ℕ
place n = record { offset = n; other = 0 }

abbrev five : List (EntrySet ℕ ℕ)
five =
    entry 5 40 (place 41 ∷ place 40 ∷ [])
    ∷ entry 2 30 []
    ∷ entry 7 20 (place 20 ∷ [])
    ∷ entry 4 10 []
    ∷ entry 3 0 (place 1 ∷ [])
    ∷ []

-- The lightest of the five is gone, and the others are in order.
copies : copy_abstract ltb {B = ℕ} (record { words = 9; content = rich five }) ≡ record {
  words = 9;
  content = rich (
      entry 3 0 (place 1 ∷ [])
      ∷ entry 4 10 []
      ∷ entry 7 20 (place 20 ∷ [])
      ∷ entry 5 40 (place 40 ∷ place 41 ∷ [])
      ∷ []);
}
unfolding copy_abstract sort
copies = refl

copy_abstract_example :
    (kept : List (EntrySet ℕ ℕ)) × (out : List (EntrySet ℕ ℕ)) × (copy_abstract ltb {B = ℕ}
        (record { words = 9; content = rich five })
      ≡ record { words = 9; content = rich out })
    × IsTop (heavier ltb) 4 five kept
    × (length kept ≡ 4 → IsSorted (by_key (λ e. e.u_min)) kept)
    × AreCopied 128 kept out
    × (total out ≡ min 128 (total kept))
copy_abstract_example = copy_abstract_lem ltb ltb-IsLinear 9 five
