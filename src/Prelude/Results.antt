-- ===== src/Prelude/Results.antt =====
-- What a function of the source returns or throws.
use Prim.Native.String.{String}
use mathlib.Core.Logic.{◌⊎◌, inl, inr}
use mathlib.Core.Path.{◌≡◌, refl}

-- The classes of exceptions that the sources throw or tell apart, each with its text. `undefined` is a
-- read that C++ gives no meaning, and `out_of_fuel` a loop of the model that has not come to its end.
pub data Exception : Type 0 where
  logic_error invalid_argument runtime_error range_error bad_function_call parse_error :
      String → Exception
  out_of_fuel undefined : Exception

pub data Result {ℓ} (A : Type ℓ) : Type ℓ where
  err : Exception → Result A
  ok : A → Result A

module _ {ℓ κ} {A : Type ℓ} {B : Type κ} where
  infixl 5 ◌>>=◌
  abbrev pub ◌>>=◌ : Result A → (A → Result B) → Result B
  r >>= next = elim r [ err e ↦ err e | ok a ↦ next a ]

pub Result-cases {ℓ} :
    {A : Type ℓ} (r : Result A) → ((a : A) × (r ≡ ok a)) ⊎ ((x : Exception) × (r ≡ err x))
Result-cases (err x) = inr (x, refl)
Result-cases (ok a) = inl (a, refl)
