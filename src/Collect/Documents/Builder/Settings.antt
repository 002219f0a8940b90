-- ===== src/Collect/Documents/Builder/Settings.antt =====
-- What the settings of a collector are good for, whatever calls made them.
use mathlib.Core.List.{Mem, mem-cons, mem-cons_self, mem-cons_of_mem, Mem-prop}
use mathlib.Core.Logic.Or
use palmira.Prelude.{
  ok, ℕ, zero, suc, ◌<◌, ◌≡◌, refl, inl, inr, Bool, true, false, List, [], ◌∷◌, Option, none, some,
  arith, Exception,
}
use palmira.Collect.Order.{compare_by_range, wrap_differ}
use palmira.Collect.Documents.{Data, Impl}
use palmira.Collect.Documents.Linear.{init_buffer, init_found}
use palmira.Collect.Documents.Builder.{
  rich, Real, heaviest, get_range, Call, defaults, ensure, apply, configure, create_collector,
}
use palmira.Collect.Order.{sign_of, or_by_id}
use palmira.Collect.Order.Total.{IsLinear}
use palmira.Prelude.{◌^◌, Bool-cases, subst}
use palmira.Prelude.Int.{ℤ, is_nonzero, to_int32, sub32}

-- Results are counted from 1, and the order gives 0 for no two documents.
pub record IsReady {W T Q : Type 0} (d : Data W T Q) : Type 0 where
  pub positive : 0 < d.nfirst
  pub apart :
      (a b : ℕ) (f g : W) → a < 2 ^ 32 → b < 2 ^ 32 → is_nonzero (d.differ a f b g) ≡ false → a ≡ b

or_by_id_apart :
    (res : ℤ) (a b : ℕ) → a < 2 ^ 32 → b < 2 ^ 32 → is_nonzero (or_by_id res a b) ≡ false → a ≡ b
unfolding or_by_id
or_by_id_apart res a b ha hb h = elim (Bool-cases (is_nonzero res)) [
  | inl e ↦ absurd (cc (e, subst (λ t. is_nonzero t ≡ false) (when_true e) h))
  | inr e ↦ same (subst (λ t. is_nonzero t ≡ false) (when_false e) h)
]
  where
    when_true : is_nonzero res ≡ true → or_by_id res a b ≡ res
    when_true e = rw e

    when_false : is_nonzero res ≡ false → or_by_id res a b ≡ to_int32 (sub32 a b)
    when_false e = rw e

    same : is_nonzero (to_int32 (sub32 a b)) ≡ false → a ≡ b
    same k = ground arith

module _ {W T Q : Type 0} (lt : W → W → Bool) (get_range : ℕ → T → W) where
  defaults-IsReady : IsReady (defaults {Q = Q} lt get_range)
  unfolding defaults compare_by_range
  defaults-IsReady = record {
    positive = omega arith;
    apart = λ a b f g ha hb h. or_by_id_apart (sign_of (lt f g) (lt g f)) a b ha hb h;
  }

  pub ensure-IsReady :
      (params : Option (Data W T Q))
      → ((d : Data W T Q) → params ≡ some d → IsReady d)
      → IsReady (ensure lt get_range params)
  unfolding ensure
  ensure-IsReady none h = defaults-IsReady
  ensure-IsReady (some d) h = h d refl

  apply-IsReady : (c : Call W T Q) (d : Data W T Q) → IsReady d → IsReady (apply lt get_range c d).0
  unfolding apply wrap_differ
  apply-IsReady (Call.set_first zero) d r = r
  apply-IsReady (Call.set_first (suc n)) d r = record { positive = omega arith; apart = r.apart }
  apply-IsReady (Call.set_count n) d r = record { positive = r.positive; apart = r.apart }
  apply-IsReady (Call.set_order none) d r = r
  apply-IsReady (Call.set_order (some f)) d r = record {
    positive = r.positive;
    apart = λ a b v w ha hb h. or_by_id_apart (f a v b w) a b ha hb h;
  }
  apply-IsReady (Call.set_range none) d r = r
  apply-IsReady (Call.set_range (some f)) d r = record { positive = r.positive; apart = r.apart }
  apply-IsReady (Call.set_quote none) d r = r
  apply-IsReady (Call.set_quote (some f)) d r = record { positive = r.positive; apart = r.apart }
  apply-IsReady (Call.set_async false) d r = r
  apply-IsReady (Call.set_async true) d r = record { positive = r.positive; apart = r.apart }

  some_eq : {x y : Data W T Q} → some x ≡ some y → x ≡ y
  some_eq k = cc

  configure-IsReady :
      (cs : List (Call W T Q)) (params : Option (Data W T Q))
      → ((d : Data W T Q) → params ≡ some d → IsReady d)
      → (d : Data W T Q) → (configure lt get_range cs params).0 ≡ some d
      → IsReady d
  unfolding configure
  configure-IsReady [] params h d e = h d e
  configure-IsReady (c ∷ cs) params h d e =
      after (λ d' r k. configure-IsReady cs (some d') (λ x m. subst IsReady (some_eq m) r) d k)
        (apply lt get_range c (ensure lt get_range params)).1
        (apply-IsReady c (ensure lt get_range params) (ensure-IsReady params h)) e
    where
      after :
          {d' : Data W T Q}
          → ((x : Data W T Q)
              → IsReady x
              → (configure lt get_range cs (some x)).0 ≡ some d
              → IsReady d)
          → (thrown : Option Exception) → IsReady d'
          → (elim thrown as (λ _. Option (Data W T Q) × Option Exception) [
            | none ↦ configure lt get_range cs (some d')
            | some x ↦ (some d', some x)
          ]).0
            ≡ some d
          → IsReady d
      after next none r e' = next _ r e'
      after next (some x) r e' = subst IsReady (some_eq e') r

  -- Whatever calls have been made on a fresh `Documents`, and whether one of them threw or none, the
  -- collector that it then creates is empty and counts its results from 1, and its order tells any two
  -- documents apart, be it the default one or one given by `SetOrder`.
  pub create_collector-IsReady :
      (cs : List (Call W T Q))
      → let (d, s) : Data W T Q × Impl W T =
          create_collector lt get_range (configure lt get_range cs none).0 in
        IsReady d × (s.buffer ≡ []) × (s.n_found ≡ 0)
  unfolding create_collector
  create_collector-IsReady cs = (
    ensure-IsReady _ (configure-IsReady cs none (λ d e. absurd (cc e))),
    init_buffer _,
    init_found _,
  )

module _ {F : Type 0} (r : Real F) (l : IsLinear r.lt) where
  -- No weight of a list is greater than `m`.
  abbrev pub NoneOver : F → List F → Type 0
  NoneOver m [] = Unit
  NoneOver m (w ∷ ws) = (r.lt m w ≡ false) × NoneOver m ws

  heaviest-NoneOver :
      (b : F) (ws : List F)
      → (m : F) × (heaviest r (some b) ws ≡ some m) × Mem m (b ∷ ws) × NoneOver m (b ∷ ws)
  unfolding heaviest
  heaviest-NoneOver b [] = (b, refl, mem-cons_self, (not_over b, tt))
    where
      not_over : (x : F) → r.lt x x ≡ false
      not_over x = elim (Bool-cases (r.lt x x)) [ inl e ↦ l.asym x x e | inr e ↦ e ]
  heaviest-NoneOver b (w ∷ ws) = elim (Bool-cases (r.lt b w)) [
    | inl e ↦
        let (m, run, mem, over) = heaviest-NoneOver w ws in
        (
          m,
          rw (e, heaviest) run,
          mem-cons_of_mem b mem,
          (l.not_lt_trans b w m (l.asym b w e) over.0, over),
        )
    | inr e ↦
        let (m, run, mem, over) = heaviest-NoneOver b ws in
        (
          m,
          rw (e, heaviest) run,
          Or.elim Mem-prop (mem-cons.0 mem) (λ same. rw same mem-cons_self)
              (λ k. mem-cons_of_mem b (mem-cons_of_mem w k)),
          (over.0, (l.not_lt_trans w b m e over.0, over.1)),
        )
  ]

  -- The default ranker gives a document with positions the greatest weight of its entries: one of
  -- their weights, with none over it.
  get_range-NoneOver :
      (id : ℕ) (w : F) (ws : List F)
      → (m : F) × (get_range r id (rich (w ∷ ws)) ≡ ok m) × Mem m (w ∷ ws) × NoneOver m (w ∷ ws)
  unfolding get_range heaviest
  get_range-NoneOver id w ws =
      let (m, run, mem, over) = heaviest-NoneOver w ws in
      (m, rw (run, get_range, heaviest), mem, over)
