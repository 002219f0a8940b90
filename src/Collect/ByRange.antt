-- ===== src/Collect/ByRange.antt =====
-- The default order of the collector, `compareByRange`, on entities.
use palmira.Prelude.{◌^◌, ◌<◌, Bool}
use palmira.Sorting.Laws.{IsStrictWeak, IsSeparating}
use palmira.Collect.Order.{compare_by_range}
use palmira.Collect.Order.Total.{IsLinear, before_asym, not_before_trans, before_separates}
use palmira.Collect.Documents.{Entity, Data, less}

-- The document numbers for which the difference of two has the right sign.
abbrev pub IsSmall : {W : Type 0} → Entity W → Type 0
IsSmall e = e.id < 2 ^ 31

-- Settings with the order by weight.
abbrev pub by_range : {W T Q : Type 0} → (W → W → Bool) → Data W T Q → Data W T Q
by_range lt d = record d { differ = compare_by_range lt }

module _ {W T Q : Type 0} (lt : W → W → Bool) (l : IsLinear lt) (d : Data W T Q) where
  -- Over a linear order of weights, `compareByRange` is a strict weak order on the documents that are
  -- numbered below 2^31.
  pub by_range-IsStrictWeak : IsStrictWeak (less (by_range lt d)) IsSmall
  by_range-IsStrictWeak = record {
    asym = λ a b ha hb h. before_asym lt l a.id b.id a.weight b.weight ha hb h;
    not_after_trans = λ a b c ha hb hc p q.
        not_before_trans lt l a.id b.id c.id a.weight b.weight c.weight ha hb hc p q;
  }

  -- And it tells any two of them apart.
  pub by_range-IsSeparating : IsSeparating (less (by_range lt d)) IsSmall
  by_range-IsSeparating a b ha hb p q =
      let (ids, weights) = before_separates lt l a.id b.id a.weight b.weight ha hb p q in
      λ i. record { id = ids i; weight = weights i }

  -- Over a linear order of weights, `compareByRange` is a strict weak order on the documents that are numbered below 2^31,
  -- and tells any two of them apart.
  pub by_range-IsOrder :
      IsStrictWeak (less (by_range lt d)) IsSmall × IsSeparating (less (by_range lt d)) IsSmall
  by_range-IsOrder = (by_range-IsStrictWeak, by_range-IsSeparating)
