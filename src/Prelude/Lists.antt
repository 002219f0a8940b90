-- ===== src/Prelude/Lists.antt =====
-- Lists measured and indexed by native numbers, under the library's names.
use Prim.Native.Nat.{ℕ, zero, suc, ◌+◌, ◌-◌, ◌≤◌, ◌<◌, min}
use mathlib.Core.Path.{◌≡◌, refl, ap, ◌∙◌}
use mathlib.Core.List.{List, [], ◌∷◌, ◌++◌, map}
use mathlib.Core.Option.{Option, none, some}
use native.Mathlib.Omega.{arith}

module _ {ℓ} {A : Type ℓ} where
  abbrev pub length : List A → ℕ
  length [] = 0
  length (x ∷ xs) = suc (length xs)

  abbrev pub get_elem? : List A → ℕ → Option A
  get_elem? [] i = none
  get_elem? (x ∷ xs) zero = some x
  get_elem? (x ∷ xs) (suc i) = get_elem? xs i

  -- A write out of bounds changes nothing.
  abbrev pub set : List A → ℕ → A → List A
  set [] i v = []
  set (x ∷ xs) zero v = v ∷ xs
  set (x ∷ xs) (suc i) v = x ∷ set xs i v

  abbrev pub take : ℕ → List A → List A
  take zero xs = []
  take (suc n) [] = []
  take (suc n) (x ∷ xs) = x ∷ take n xs

  abbrev pub drop : ℕ → List A → List A
  drop zero xs = xs
  drop (suc n) [] = []
  drop (suc n) (x ∷ xs) = drop n xs

module _ {ℓ} {A : Type ℓ} where
  pub length-append : (xs ys : List A) → length (xs ++ ys) ≡ length xs + length ys
  length-append [] ys = omega arith
  length-append (x ∷ xs) ys = omega (arith, length-append xs ys)

  pub length-set : (xs : List A) (i : ℕ) (v : A) → length (set xs i v) ≡ length xs
  length-set [] i v = refl
  length-set (x ∷ xs) zero v = refl
  length-set (x ∷ xs) (suc i) v = ap suc (length-set xs i v)

  pub length-take : (n : ℕ) (xs : List A) → length (take n xs) ≡ min n (length xs)
  length-take zero xs = omega arith
  length-take (suc n) [] = omega arith
  length-take (suc n) (x ∷ xs) = omega (arith, length-take n xs)

  pub length-drop : (n : ℕ) (xs : List A) → length (drop n xs) ≡ length xs - n
  length-drop zero xs = omega arith
  length-drop (suc n) [] = omega arith
  length-drop (suc n) (x ∷ xs) = omega (arith, length-drop n xs)

  pub take_all : (n : ℕ) (xs : List A) → length xs ≤ n → take n xs ≡ xs
  take_all zero [] h = refl
  take_all zero (x ∷ xs) h = absurd (omega arith)
  take_all (suc n) [] h = refl
  take_all (suc n) (x ∷ xs) h = ap (◌∷◌ x) (take_all n xs (omega arith))

  pub take-append_left : (xs ys : List A) → take (length xs) (xs ++ ys) ≡ xs
  take-append_left [] ys = refl
  take-append_left (x ∷ xs) ys = ap (◌∷◌ x) (take-append_left xs ys)

  pub length-map {κ} : {B : Type κ} (xs : List A) (f : A → B) → length (map f xs) ≡ length xs
  length-map [] f = refl
  length-map (x ∷ xs) f = ap suc (length-map xs f)

  -- An index in range reads something.
  pub get_elem?-some : (xs : List A) (i : ℕ) → i < length xs → (x : A) × (get_elem? xs i ≡ some x)
  get_elem?-some [] i h = elim h [ ]
  get_elem?-some (x ∷ xs) zero h = (x, refl)
  get_elem?-some (x ∷ xs) (suc i) h = get_elem?-some xs i (omega arith)

module _ {ℓ} {A : Type ℓ} where
  pub get_elem?-append_right :
      (xs ys : List A) (n : ℕ) → get_elem? (xs ++ ys) (length xs + n) ≡ get_elem? ys n
  get_elem?-append_right [] ys n = ap (get_elem? ys) (omega arith)
  get_elem?-append_right (x ∷ xs) ys n =
      ap (get_elem? (x ∷ xs ++ ys)) (shift (length xs) n) ∙ get_elem?-append_right xs ys n
    where
      shift : (a b : ℕ) → suc a + b ≡ suc (a + b)
      shift a b = omega arith

  pub get_elem?-append_left :
      (xs ys : List A) (n : ℕ) (v : A) → get_elem? xs n ≡ some v → get_elem? (xs ++ ys) n ≡ some v
  get_elem?-append_left [] ys n v h = cc h
  get_elem?-append_left (x ∷ xs) ys zero v h = h
  get_elem?-append_left (x ∷ xs) ys (suc n) v h = get_elem?-append_left xs ys n v h

  pub get_elem?-middle :
      (xs : List A) (v : A) (ys : List A) → get_elem? (xs ++ v ∷ ys) (length xs) ≡ some v
  get_elem?-middle [] v ys = refl
  get_elem?-middle (x ∷ xs) v ys = get_elem?-middle xs v ys

  pub get_elem?-set :
      (xs : List A) (n : ℕ) (w v : A) → get_elem? xs n ≡ some w → get_elem? (set xs n v) n ≡ some v
  get_elem?-set [] n w v h = cc h
  get_elem?-set (x ∷ xs) zero w v h = refl
  get_elem?-set (x ∷ xs) (suc n) w v h = get_elem?-set xs n w v h

  -- A list by its front and its last value.
  pub split_last :
      (xs : List A) (n : ℕ)
      → length xs ≡ suc n
      → (w : A) × (get_elem? xs n ≡ some w) × (xs ≡ take n xs ++ w ∷ [])
  split_last [] n h = absurd (omega arith)
  split_last (x ∷ []) zero h = (x, refl, refl)
  split_last (x ∷ y ∷ ys) zero h = absurd (omega arith)
  split_last (x ∷ xs) (suc n) h =
      let (w, at, e) = split_last xs n (omega arith) in (w, at, ap (◌∷◌ x) e)

  pub nil_of_length : (xs : List A) → length xs ≡ 0 → xs ≡ []
  nil_of_length [] e = refl
  nil_of_length (x ∷ xs) e = absurd (omega arith)
