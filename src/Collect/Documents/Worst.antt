-- ===== src/Collect/Documents/Worst.antt =====
-- The scan for the worst of the kept documents.
use mathlib.Core.List.{forall_mem-cons}
use palmira.Prelude.{
  ℕ, zero, suc, ◌+◌, ◌≡◌, refl, ap, ◌∙◌, sym, ◌⊎◌, inl, inr, true, false, List, [], ◌∷◌, some,
  get_elem?, Bool-cases, arith,
}
use palmira.Sorting.Laws.{All, All-nil, All-head, All-tail, NotAfter, IsStrictWeak, NotAfter-prop}
use palmira.Collect.Documents.{Entity, Data, less, worst_from, detect_worst}

module _ {W T Q : Type 0} (d : Data W T Q) where
  worst_value : Entity W → List (Entity W) → Entity W
  worst_value w [] = w
  worst_value w (e ∷ es) = elim (less d w e) [ true ↦ worst_value e es | false ↦ worst_value w es ]

  -- The index that the scan returns is that of the value that it holds.
  worst_from-worst_value :
      (i k : ℕ) (w : Entity W) (es : List (Entity W))
      → ((worst_from d i k w es ≡ k) × (worst_value w es ≡ w))
        ⊎ ((j : ℕ) × (worst_from d i k w es ≡ i + j) × (get_elem? es j ≡ some (worst_value w es)))
  unfolding worst_from worst_value
  worst_from-worst_value i k w [] = inl (refl, refl)
  worst_from-worst_value i k w (e ∷ es) = elim (Bool-cases (less d w e)) [
    | inl h ↦ rw (h, worst_from, worst_value) (moved (worst_from-worst_value (suc i) i e es))
    | inr h ↦ rw (h, worst_from, worst_value) (stayed (worst_from-worst_value (suc i) k w es))
  ]
    where
      moved :
          ((worst_from d (suc i) i e es ≡ i) × (worst_value e es ≡ e))
            ⊎ ((j : ℕ) × (worst_from d (suc i) i e es ≡ suc i + j)
                × (get_elem? es j ≡ some (worst_value e es)))
          → ((worst_from d (suc i) i e es ≡ k) × (worst_value e es ≡ w))
            ⊎ ((j : ℕ) × (worst_from d (suc i) i e es ≡ i + j)
                × (get_elem? (e ∷ es) j ≡ some (worst_value e es)))
      moved (inl (p, q)) = inr (zero, omega (arith, p), ap some (sym q))
      moved (inr (j, p, q)) = inr (suc j, omega (arith, p), q)

      stayed :
          ((worst_from d (suc i) k w es ≡ k) × (worst_value w es ≡ w))
            ⊎ ((j : ℕ) × (worst_from d (suc i) k w es ≡ suc i + j)
                × (get_elem? es j ≡ some (worst_value w es)))
          → ((worst_from d (suc i) k w es ≡ k) × (worst_value w es ≡ w))
            ⊎ ((j : ℕ) × (worst_from d (suc i) k w es ≡ i + j)
                × (get_elem? (e ∷ es) j ≡ some (worst_value w es)))
      stayed (inl p) = inl p
      stayed (inr (j, p, q)) = inr (suc j, omega (arith, p), q)

  module _ {κ} {P : Entity W → Type κ} (o : IsStrictWeak (less d) P) where
    worst_value-IsWorst :
        (w : Entity W) (es : List (Entity W))
        → P w
        → All P es
        → P (worst_value w es)
          × NotAfter (less d) w (worst_value w es)
          × All (λ e. NotAfter (less d) e (worst_value w es)) es
    unfolding worst_value
    worst_value-IsWorst w [] pw ps = (pw, not_before_self, All-nil _)
      where
        not_before_self : less d w w ≡ false
        not_before_self = elim (Bool-cases (less d w w)) [ inl h ↦ o.asym w w pw pw h | inr h ↦ h ]
    worst_value-IsWorst w (e ∷ es) pw ps = elim (Bool-cases (less d w e)) [
      | inl h ↦
          let (pv, ev, rest) = worst_value-IsWorst e es (All-head ps) (All-tail ps) in
          rw (h, worst_value)
            (
              pv,
              o.not_after_trans w e (worst_value e es) pw (All-head ps) pv
                  (o.asym w e pw (All-head ps) h) ev,
              (forall_mem-cons (λ x. NotAfter-prop (less d) x _)).1 (ev, rest),
            )
      | inr h ↦
          let (pv, wv, rest) = worst_value-IsWorst w es pw (All-tail ps) in
          rw (h, worst_value)
            (
              pv,
              wv,
              (forall_mem-cons (λ x. NotAfter-prop (less d) x _)).1
                  (o.not_after_trans e w (worst_value w es) (All-head ps) pw pv h wv, rest),
            )
    ]

    -- Of a buffer that holds anything, the scan finds an entity that comes before none of the rest.
    pub detect_worst-IsWorst :
        (e : Entity W) (es : List (Entity W))
        → All P (e ∷ es)
        → (w : Entity W) × (get_elem? (e ∷ es) (detect_worst d (e ∷ es)) ≡ some w)
          × All (λ k. NotAfter (less d) k w) (e ∷ es)
    unfolding detect_worst
    detect_worst-IsWorst e es ps =
        let (pv, ev, rest) = worst_value-IsWorst e es (All-head ps) (All-tail ps) in
        (
          worst_value e es,
          at (worst_from-worst_value 1 0 e es),
          (forall_mem-cons (λ x. NotAfter-prop (less d) x _)).1 (ev, rest),
        )
      where
        at :
            ((worst_from d 1 0 e es ≡ 0) × (worst_value e es ≡ e))
              ⊎ ((j : ℕ) × (worst_from d 1 0 e es ≡ 1 + j)
                  × (get_elem? es j ≡ some (worst_value e es)))
            → get_elem? (e ∷ es) (worst_from d 1 0 e es) ≡ some (worst_value e es)
        at (inl (p, q)) = rw p (ap some (sym q))
        at (inr (j, p, q)) = rw (p ∙ one_more j) q
          where
            one_more : (j : ℕ) → 1 + j ≡ suc j
            one_more j = omega arith
