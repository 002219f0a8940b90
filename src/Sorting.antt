-- ===== src/Sorting.antt =====
-- `std::sort` with a comparator, as the sources use it: some rearrangement in which no later element
-- is less than an earlier one. Insertion sort; where the comparator is a total order there is only one.
pub mod Laws
pub mod Top
pub mod Combine
use palmira.Prelude.{Bool, List, [], ◌∷◌, if◌then◌else◌}

module _ {ℓ} {A : Type ℓ} (less : A → A → Bool) where
  unfoldable pub insert : A → List A → List A
  insert x [] = x ∷ []
  insert x (y ∷ ys) = let rest = insert x ys in if less y x then y ∷ rest else x ∷ y ∷ ys

  unfoldable pub sort : List A → List A
  unfolding insert
  sort [] = []
  sort (x ∷ xs) = insert x (sort xs)
