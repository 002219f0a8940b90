-- ===== src/Collect/Quotes/Copy/Spread.antt =====
-- What CopyAbstract makes of an abstract with positions.
use mathlib.Core.List.{Perm}
use mathlib.Core.List.Perm
use palmira.Prelude.{
  ℕ, ◌+◌, ◌-◌, min, ◌≡◌, refl, sym, ◌∙◌, inl, inr, Bool, List, [], ◌∷◌, ltb, ◌==◌, ==_iff, length,
  length-take, take, Bool-cases, arith,
}
use palmira.Sorting.{sort}
use palmira.Sorting.Laws.{IsStrictWeak, IsSorted, sort-perm, sort-IsSorted}
use palmira.Sorting.Combine.{IsTop-kept_perm}
use palmira.Sorting.Top.{IsTop, length-perm}
use palmira.Collect.Order.Total.{IsLinear}
use palmira.Collect.Quotes.Copy.{
  rich, EntrySet, max_entry_set_count, max_entry_pos_count, select, arrange, copy_spreads,
  copy_abstract,
}
use palmira.Collect.Quotes.Copy.Best.{heavier, select-IsTop}

-- Any order by a number is one that sorts.
module _ {A : Type 0} (key : A → ℕ) where
  abbrev pub by_key : A → A → Bool
  by_key a b = ltb (key a) (key b)

  abbrev Any : A → Type 0
  Any a = Unit

  pub by_key-IsStrictWeak : IsStrictWeak by_key Any
  by_key-IsStrictWeak = record {
    asym = λ a b pa pb h. ground arith;
    not_after_trans = λ a b c pa pb pc p q. ground arith;
  }

  sort-by_key : (xs : List A) → Perm (sort by_key xs) xs × IsSorted by_key (sort by_key xs)
  sort-by_key xs =
      (sort-perm by_key Any xs, sort-IsSorted by_key Any by_key-IsStrictWeak xs (λ x m. tt))

module _ {W X : Type 0} where
  -- An entry without its positions.
  abbrev pub outline : EntrySet W X → W × ℕ × ℕ
  outline e = (e.weight, e.u_min, e.u_max)

  -- How many positions a list of entries has.
  abbrev pub total : List (EntrySet W X) → ℕ
  total [] = 0
  total (e ∷ es) = length e.spread + total es

  -- The second list is a copy of the first with room for `room` positions: entry by entry the same
  -- weight and bounds, and of its positions the first ones, as many as there is still room for, in
  -- order; the room is less for what follows.
  abbrev pub AreCopied : ℕ → List (EntrySet W X) → List (EntrySet W X) → Type 0
  AreCopied room [] [] = Unit
  AreCopied room [] (o ∷ os) = ⊥
  AreCopied room (e ∷ es) [] = ⊥
  AreCopied room (e ∷ es) (o ∷ os) =
      (outline o ≡ outline e)
      × Perm o.spread (take room e.spread)
      × IsSorted (by_key (λ p. p.offset)) o.spread
      × AreCopied (room - length (take room e.spread)) es os

  module _ (lt : W → W → Bool) where
    copy_spreads-AreCopied :
        (room : ℕ) (es : List (EntrySet W X)) → AreCopied room es (copy_spreads lt room es)
    unfolding copy_spreads
    copy_spreads-AreCopied room [] = tt
    copy_spreads-AreCopied room (e ∷ es) =
        let (p, sorted) = sort-by_key (λ q. q.offset) (take room e.spread) in
        (refl, p, sorted, copy_spreads-AreCopied (room - length (take room e.spread)) es)

    total-copy_spreads :
        (room : ℕ) (es : List (EntrySet W X))
        → total (copy_spreads lt room es) ≡ min room (total es)
    unfolding copy_spreads
    total-copy_spreads room [] = omega arith
    total-copy_spreads room (e ∷ es) =
        let (p, sorted) = sort-by_key (λ q. q.offset) (take room e.spread) in
        omega (
          arith,
          total-copy_spreads (room - length (take room e.spread)) es,
          length-perm _ _ p,
          length-take room e.spread,
        )

    arrange_lem :
        (es : List (EntrySet W X))
        → Perm (arrange lt es) es
          × (length es ≡ max_entry_set_count → IsSorted (by_key (λ e. e.u_min)) (arrange lt es))
    unfolding arrange
    arrange_lem es = elim (Bool-cases (length es == max_entry_set_count)) [
      | inl h ↦ let (p, sorted) = sort-by_key (λ e. e.u_min) es in rw h (p, λ k. sorted)
      | inr h ↦ rw h (Perm.refl es, λ k. absurd (cc (h, (==_iff _ _).1 k)))
    ]

    -- The copy of an abstract with positions has the entries that are kept, in order of `uMin` if they
    -- are four, each with its weight and its bounds. Of their positions it has the
    -- first 128, taken entry by entry, or all if there are no more, those of each entry in order. The
    -- entries kept are four, or all if there are no more, and none left out is heavier than any of
    -- them.
    pub copy_abstract_lem :
        {B : Type 0}
        → IsLinear lt
        → (n : ℕ) (src : List (EntrySet W X))
        → (kept : List (EntrySet W X)) × (out : List (EntrySet W X)) × (copy_abstract lt {B = B}
              (record { words = n; content = rich src })
            ≡ record { words = n; content = rich out })
          × IsTop (heavier lt) max_entry_set_count src kept
          × (length kept ≡ max_entry_set_count → IsSorted (by_key (λ e. e.u_min)) kept)
          × AreCopied max_entry_pos_count kept out
          × (total out ≡ min max_entry_pos_count (total kept))
    unfolding copy_abstract
    copy_abstract_lem l n src =
        let (p, sorted) = arrange_lem (select lt src) in
        (
          arrange lt (select lt src),
          copy_spreads lt max_entry_pos_count (arrange lt (select lt src)),
          refl,
          IsTop-kept_perm (heavier lt) p (select-IsTop lt l src),
          λ four. sorted (sym (length-perm _ _ p) ∙ four),
          copy_spreads-AreCopied max_entry_pos_count (arrange lt (select lt src)),
          total-copy_spreads max_entry_pos_count (arrange lt (select lt src)),
        )
