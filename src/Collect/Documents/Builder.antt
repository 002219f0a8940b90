-- ===== src/Collect/Documents/Builder.antt =====
-- src/service/collect-docs.cpp, the class `Documents`: the settings of a collector, made by the first
-- call and changed by each. A call that throws has made them all the same.
pub mod Settings
use palmira.Prelude.{
  ℕ, zero, suc, ◌+◌, Bool, true, false, List, [], ◌∷◌, Option, none, some, ◌==◌, if◌then◌else◌,
  Result, ok, err, Exception,
}
use palmira.Collect.Order.{compare_by_range, wrap_differ}
use palmira.Collect.Documents.{Data, Impl, init}
use palmira.Prelude.Int.{ℤ}

-- structo's Abstract, as far as the default ranker reads it: the weights of the entries, or the
-- frequencies of the terms. `F` stands for `double`.
pub data Abstract (F : Type 0) : Type 0 where
  no_mode : Abstract F
  rich : List F → Abstract F
  bm25 : (words : ℕ) → List F → Abstract F

-- What the ranker computes with.
pub record Real (F : Type 0) : Type 0 where
  pub lt : F → F → Bool
  pub zero : F
  pub one : F
  pub sub : F → F → F
  pub mul : F → F → F
  pub div : F → F → F
  pub log_of : ℕ → F

module _ {F : Type 0} (r : Real F) where
  -- `best == nullptr || best->weight < p->weight`
  unfoldable pub heaviest : Option F → List F → Option F
  heaviest best [] = best
  heaviest none (w ∷ ws) = heaviest (some w) ws
  heaviest (some b) (w ∷ ws) = elim (r.lt b w) [
    | true ↦ heaviest (some w) ws
    | false ↦ heaviest (some b) ws
  ]

  unfoldable pub product : F → List F → F
  product weight [] = weight
  product weight (f ∷ fs) = product (r.mul weight (r.sub r.one f)) fs

  -- data::GetRange
  unfoldable pub get_range : ℕ → Abstract F → Result F
  unfolding heaviest product
  get_range id no_mode = err (Exception.logic_error "invalid Abstract mode passed")
  get_range id (rich ws) = elim (heaviest none ws) [ none ↦ ok r.zero | some w ↦ ok w ]
  get_range id (bm25 words fs) =
      if words == 0
      then ok (r.sub r.one (product r.one fs))
      else ok (r.div (r.sub r.one (product r.one fs)) (r.log_of (2 + words)))

-- The members of `Documents` that are set, each with its argument. A function or a pool may be null.
pub data Call (W T Q : Type 0) : Type 0 where
  set_first set_count : ℕ → Call W T Q
  set_order : Option (ℕ → W → ℕ → W → ℤ) → Call W T Q
  set_range : Option (ℕ → T → W) → Call W T Q
  set_quote : Option (ℕ → T → Q) → Call W T Q
  set_async : (pool : Bool) → Call W T Q

module _ {W T Q : Type 0} (lt : W → W → Bool) (get_range : ℕ → T → W) where
  -- The defaults of Documents::data.
  unfoldable pub defaults : Data W T Q
  defaults = record {
    nfirst = 1;
    ncount = 10;
    differ = compare_by_range lt;
    ranker = get_range;
    quoter = none;
    async = false;
  }

  -- `if ( params == nullptr ) params = std::make_shared<data>();`
  unfoldable pub ensure : Option (Data W T Q) → Data W T Q
  unfolding defaults
  ensure none = defaults
  ensure (some d) = d

  -- SetFirst, SetCount, SetOrder, SetRange, SetQuote and SetAsync: the settings after the call, and
  -- what it throws.
  unfoldable pub apply : Call W T Q → Data W T Q → Data W T Q × Option Exception
  apply (Call.set_first zero) d = (d, some (Exception.invalid_argument "'first' has to be 1-based"))
  apply (Call.set_first (suc n)) d = (record d { nfirst = suc n }, none)
  apply (Call.set_count n) d = (record d { ncount = n }, none)
  apply (Call.set_order none) d =
      (d, some (Exception.invalid_argument "'fless' has to be a valid IsLessFn"))
  apply (Call.set_order (some f)) d = (record d { differ = wrap_differ f }, none)
  apply (Call.set_range none) d =
      (d, some (Exception.invalid_argument "'range' has to be a valid RankerFn"))
  apply (Call.set_range (some f)) d = (record d { ranker = f }, none)
  apply (Call.set_quote none) d =
      (d, some (Exception.invalid_argument "'quote' has to be a valid IQuotation object"))
  apply (Call.set_quote (some f)) d = (record d { quoter = some f }, none)
  apply (Call.set_async false) d =
      (d, some (Exception.invalid_argument "'actor' has to be a valid mtc::ThreadsPool object"))
  apply (Call.set_async true) d = (record d { async = true }, none)

  -- A chain of calls, which an exception ends; the settings are kept.
  unfoldable pub configure :
      List (Call W T Q) → Option (Data W T Q) → Option (Data W T Q) × Option Exception
  unfolding apply ensure
  configure [] params = (params, none)
  configure (c ∷ cs) params =
      let (d, thrown) = apply c (ensure params) in
      elim thrown [ none ↦ configure cs (some d) | some e ↦ (some d, some e) ]

  -- Documents::Create
  unfoldable pub create_collector : Option (Data W T Q) → Data W T Q × Impl W T
  unfolding ensure
  create_collector params = (ensure params, init (ensure params))
