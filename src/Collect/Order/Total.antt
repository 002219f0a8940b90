-- ===== src/Collect/Order/Total.antt =====
-- `compareByRange` is a total order as long as the document numbers stay below 2^31, and is none over
-- all of `uint32_t`.
use palmira.Prelude.{
  ℕ, ◌+◌, ◌*◌, ◌^◌, ◌<◌, ◌≡◌, Bool, true, false, ltb, arith, Bool-cases, inl, inr, ◌≤◌, sym, ◌∙◌,
  ltb→lt, ltb_false→le, le→ltb_false,
}
use native.Mathlib.Nat.{le_trans}
use palmira.Prelude.Int.{is_neg, sub32, to_int32}
use palmira.Collect.Order.{compare_by_range}

-- `<` of weights: a linear order. That of `double` is one without NaN and with one zero.
pub record IsLinear {W : Type 0} (lt : W → W → Bool) : Type 0 where
  pub asym : (a b : W) → lt a b ≡ true → lt b a ≡ false
  pub not_lt_trans : (a b c : W) → lt b a ≡ false → lt c b ≡ false → lt c a ≡ false
  pub separates : (a b : W) → lt a b ≡ false → lt b a ≡ false → a ≡ b

-- The comparator reads a wrapped difference, and has its sign right at half the range.
is_neg-to_int32 : (a b : ℕ) → a < 2 ^ 31 → b < 2 ^ 31 → is_neg (to_int32 (sub32 a b)) ≡ ltb a b
is_neg-to_int32 a b h k = ground arith

module _ {W : Type 0} (lt : W → W → Bool) where
  abbrev before : ℕ → W → ℕ → W → Bool
  before a f b g = is_neg (compare_by_range lt a f b g)

  before_tie :
      (a b : ℕ) (f g : W)
      → lt f g ≡ false
      → lt g f ≡ false
      → before a f b g ≡ is_neg (to_int32 (sub32 a b))
  unfolding compare_by_range
  before_tie a b f g h k = rw (h, k)

  before_heavier : (a b : ℕ) (f g : W) → lt f g ≡ false → lt g f ≡ true → before a f b g ≡ true
  unfolding compare_by_range
  before_heavier a b f g h k = rw (h, k)

  before_lighter : (a b : ℕ) (f g : W) → lt f g ≡ true → lt g f ≡ false → before a f b g ≡ false
  unfolding compare_by_range
  before_lighter a b f g h k = rw (h, k)

  module _ (l : IsLinear lt) where
    -- What it means that one document does not come before another.
    before-false :
        (a b : ℕ) (f g : W)
        → a < 2 ^ 31
        → b < 2 ^ 31
        → before b g a f ≡ false
        → (lt f g ≡ false) × (lt g f ≡ false → a ≤ b)
    before-false a b f g ha hb h = elim (Bool-cases (lt f g)) [
      | inl e ↦ cc (before_heavier b a g f (l.asym f g e) e)
      | inr e ↦ (
        e,
        λ k. ltb_false→le b a (sym (is_neg-to_int32 b a hb ha) ∙ sym (before_tie b a g f k e) ∙ h),
      )
    ]

    not_before :
        (a b : ℕ) (f g : W)
        → a < 2 ^ 31
        → b < 2 ^ 31
        → lt f g ≡ false
        → (lt g f ≡ false → a ≤ b)
        → before b g a f ≡ false
    not_before a b f g ha hb h k = elim (Bool-cases (lt g f)) [
      | inl e ↦ before_lighter b a g f e h
      | inr e ↦ before_tie b a g f e h ∙ is_neg-to_int32 b a hb ha ∙ le→ltb_false b a (k e)
    ]

    pub before_asym :
        (a b : ℕ) (f g : W)
        → a < 2 ^ 31
        → b < 2 ^ 31
        → before a f b g ≡ true
        → before b g a f ≡ false
    before_asym a b f g ha hb h = elim (Bool-cases (before b g a f)) [
      | inr e ↦ e
      | inl e ↦ elim (Bool-cases (lt f g)) [
        | inl k ↦ cc (before_lighter a b f g k (l.asym f g k))
        | inr k ↦ elim (Bool-cases (lt g f)) [
          | inl m ↦ cc (before_lighter b a g f m k)
          | inr m ↦ absurd (both_ways k m e)
        ]
      ]
    ]
      where
        both_ways : lt f g ≡ false → lt g f ≡ false → before b g a f ≡ true → ⊥
        both_ways k m e = omega (
          arith,
          ltb→lt a b (sym (is_neg-to_int32 a b ha hb) ∙ sym (before_tie a b f g k m) ∙ h),
          ltb→lt b a (sym (is_neg-to_int32 b a hb ha) ∙ sym (before_tie b a g f m k) ∙ e),
        )

    pub not_before_trans :
        (a b c : ℕ) (f g h : W)
        → a < 2 ^ 31
        → b < 2 ^ 31
        → c < 2 ^ 31
        → before b g a f ≡ false
        → before c h b g ≡ false
        → before c h a f ≡ false
    not_before_trans a b c f g h ha hb hc p q =
        let (fg, ab) = before-false a b f g ha hb p in
        let (gh, bc) = before-false b c g h hb hc q in
        not_before a c f h ha hc (l.not_lt_trans h g f gh fg)
          λ hf. le_trans (ab (l.not_lt_trans f h g hf gh)) (bc (l.not_lt_trans g f h fg hf))

    pub before_separates :
        (a b : ℕ) (f g : W)
        → a < 2 ^ 31
        → b < 2 ^ 31
        → before b g a f ≡ false
        → before a f b g ≡ false
        → (a ≡ b) × (f ≡ g)
    before_separates a b f g ha hb p q =
        let (fg, ab) = before-false a b f g ha hb p in
        let (gf, ba) = before-false b a g f hb ha q in
        let le1 : a ≤ b = ab gf in let le2 : b ≤ a = ba fg in (omega arith, l.separates f g fg gf)

  -- Above that the comparator runs in circles: of three documents of one weight, each 3 · 2^29 after
  -- the last, each comes before the next, and the third before the first.
  compare_by_range_cycle :
      (a : ℕ) (f : W)
      → lt f f ≡ false
      → a + 3 * 2 ^ 30 < 2 ^ 32
      → let b = a + 3 * 2 ^ 29 in
        let c = a + 3 * 2 ^ 30 in
        (is_neg (compare_by_range lt a f b f) ≡ true)
        × (is_neg (compare_by_range lt b f c f) ≡ true)
        × (is_neg (compare_by_range lt c f a f) ≡ true)
  compare_by_range_cycle a f h r = (
    before_tie a (a + 3 * 2 ^ 29) f f h h ∙ ground arith,
    before_tie (a + 3 * 2 ^ 29) (a + 3 * 2 ^ 30) f f h h ∙ ground arith,
    before_tie (a + 3 * 2 ^ 30) a f f h h ∙ ground arith,
  )
