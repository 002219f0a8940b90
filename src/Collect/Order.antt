-- ===== src/Collect/Order.antt =====
-- The comparators of `Documents::data` in src/service/collect-docs.cpp.
pub mod Total
use palmira.Prelude.{ℕ, Bool, true, false, if◌then◌else◌}
use palmira.Prelude.Int.{ℤ, pos, negsuc, is_nonzero, sub32, to_int32}

-- `(f1 < f2) - (f1 > f2)`
unfoldable pub sign_of : Bool → Bool → ℤ
sign_of true true = pos 0
sign_of true false = pos 1
sign_of false true = negsuc 0
sign_of false false = pos 0

-- `res != 0 ? res : d1 - d2`: the difference of two `uint32_t` read as `int`.
unfoldable pub or_by_id : ℤ → ℕ → ℕ → ℤ
or_by_id res d1 d2 = if is_nonzero res then res else to_int32 (sub32 d1 d2)

module _ {W : Type 0} where
  -- data::compareByRange, over `<` of weights: greater weights come first.
  unfoldable pub compare_by_range : (W → W → Bool) → ℕ → W → ℕ → W → ℤ
  unfolding sign_of or_by_id
  compare_by_range lt d1 f1 d2 f2 = or_by_id (sign_of (lt f1 f2) (lt f2 f1)) d1 d2

  -- data::WrapDifferFn
  unfoldable pub wrap_differ : (ℕ → W → ℕ → W → ℤ) → ℕ → W → ℕ → W → ℤ
  unfolding or_by_id
  wrap_differ differ d1 f1 d2 f2 = or_by_id (differ d1 f1 d2 f2) d1 d2
