-- ===== src/Collect/Documents.antt =====
-- src/service/collect-docs.cpp. A collector keeps the best `nLimit` of the documents that a query
-- finds, in an array `Buffer()` of `nCount` entities: here the list `buffer`. Weights are a type with
-- the comparator over them a function, as in the source; `double` itself is not modelled.
pub mod Builder
pub mod Worst
pub mod Linear
pub mod Search
use palmira.Prelude.{
  ℕ, zero, suc, ◌+◌, ◌-◌, ◌%◌, ◌^◌, Bool, true, false, List, [], ◌∷◌, ◌++◌, Option, none, some, ltb,
  leb, ◌==◌, if◌then◌else◌, length, get_elem?, set, drop, Result, ok, err, Exception, ◌>>=◌, not,
}
use palmira.Prelude.Int.{ℤ, is_neg}
use palmira.Sorting.{sort}
use palmira.Collect.Quotes.{Abstracts, create, set_abstract, get_abstract, no_id}

-- impl::Entity
pub record Entity (W : Type 0) : Type 0 where
  pub id : ℕ
  pub weight : W

-- Documents::data, the settings. `async` tells if there is a thread pool.
pub record Data (W T Q : Type 0) : Type 0 where
  pub nfirst : ℕ
  pub ncount : ℕ
  pub differ : ℕ → W → ℕ → W → ℤ
  pub ranker : ℕ → T → W
  pub quoter : Option (ℕ → T → Q)
  pub async : Bool

-- What the collector uses of an abstract: whether `dwMode` is `Abstract::None`, and `CopyAbstract`.
pub record Tuples (T : Type 0) : Type 0 where
  pub is_none : T → Bool
  pub copy : T → T

-- What the collector uses of structo's `IQuery`, which is not part of the repository.
pub record Query (T : Type 0) : Type 0 where
  pub last_index : ℕ
  pub search_doc : ℕ → ℕ
  pub get_tuples : ℕ → T

-- Documents::impl without its constants, which are those of `Data`. `pWorst` is an index.
pub record Impl (W T : Type 0) : Type 0 where
  pub buffer : List (Entity W)
  pub n_found : ℕ
  pub worst : Option ℕ
  pub quo_box : Abstracts T

module _ {W T Q : Type 0} (d : Data W T Q) where
  -- `nLimit( params.nfirst + params.ncount - 1 )`, in 32 bits.
  unfoldable pub n_limit : ℕ
  n_limit = (d.nfirst + d.ncount + (2 ^ 32 - 1)) % 2 ^ 32

  -- `differ( l.id, l.weight, r.id, r.weight ) < 0`
  abbrev pub less : Entity W → Entity W → Bool
  less l r = is_neg (d.differ l.id l.weight r.id r.weight)

  -- impl::impl
  unfoldable pub init : Impl W T
  init = record { buffer = []; n_found = 0; worst = none; quo_box = create n_limit }

  -- The scan for `pWorst`: `w` at index `k` is the worst of those before index `i`.
  unfoldable pub worst_from : ℕ → ℕ → Entity W → List (Entity W) → ℕ
  worst_from i k w [] = k
  worst_from i k w (e ∷ es) = elim (less w e) [
    | true ↦ worst_from (suc i) i e es
    | false ↦ worst_from (suc i) k w es
  ]

  unfoldable pub detect_worst : List (Entity W) → ℕ
  unfolding worst_from
  detect_worst [] = 0
  detect_worst (e ∷ es) = worst_from 1 0 e es

  -- `if ( pWorst == nullptr )` scan
  unfoldable pub worst_index : Impl W T → ℕ
  unfolding detect_worst
  worst_index s = elim s.worst [ none ↦ detect_worst s.buffer | some k ↦ k ]

  -- The worst entity `w` at index `k` gives way to `e`, if `e` is better.
  unfoldable pub replace_worst :
      Tuples T → Entity W → T → Impl W T → ℕ → Entity W → Result (Impl W T)
  replace_worst tp e tuples s k w =
      if less e w
      then (set_abstract tp.copy e.id tuples w.id s.quo_box >>= λ box.
          ok (record s { buffer = set s.buffer k e; worst = none; quo_box = box }))
      else ok (record s { worst = some k })

  -- The body of the search loop once a document is found relevant. With no room at all `pWorst`
  -- points past the buffer.
  unfoldable pub accept : Tuples T → Entity W → T → Impl W T → Result (Impl W T)
  unfolding worst_index replace_worst
  accept tp e tuples s =
      if ltb (length s.buffer) n_limit
      then (set_abstract tp.copy e.id tuples no_id s.quo_box >>= λ box.
          ok (record s { buffer = s.buffer ++ e ∷ []; quo_box = box }))
      else elim (get_elem? s.buffer (worst_index s)) [
        | none ↦ err Exception.undefined
        | some w ↦ replace_worst tp e tuples s (worst_index s) w
      ]

  -- One round of the search loop.
  unfoldable pub visit : Tuples T → ℕ → T → Impl W T → Result (Impl W T)
  unfolding accept
  visit tp id tuples s =
      if tp.is_none tuples
      then ok s
      else accept tp (record { id = id; weight = d.ranker id tuples }) tuples
          (record s { n_found = (s.n_found + 1) % 2 ^ 32 })

  -- `for ( ; (id = query->SearchDoc( id + 1 )) != uint32_t(-1); )`, on fuel.
  unfoldable pub search_loop : Tuples T → Query T → ℕ → ℕ → Impl W T → Result (Impl W T)
  search_loop tp q zero id s = err Exception.out_of_fuel
  search_loop tp q (suc fuel) id s =
      let next = q.search_doc ((id + 1) % 2 ^ 32) in
      let rest = visit tp next (q.get_tuples next) s >>= λ s'. search_loop tp q fuel next s' in
      if next == no_id then ok s else rest

  -- impl::Search( linear_t, query ): the flag tells if anything was found.
  unfoldable pub search_linear : Tuples T → Query T → Impl W T → Result (Bool × Impl W T)
  search_linear tp q s = search_loop tp q (2 ^ 32) 0 s >>= λ s'. ok (not (s'.n_found == 0), s')
