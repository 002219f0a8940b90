-- ===== src/Collect/Parallel.antt =====
-- src/service/collect-docs.cpp: a query over a large index is cut into sections, each searched by a
-- task of the thread pool into a collector of its own, and each result merged under the lock into the
-- collector asked for. The tasks take the lock in some order, and the wait for them, which has no
-- condition, may come back before some of them have merged, or never: `wait` says which of this
-- happens. Collect.Waiting is about the wait itself.
pub mod Merge
pub mod Insert
pub mod Sections
pub mod Tasks
pub mod Whole
use palmira.Prelude.{
  ℕ, zero, suc, ◌+◌, ◌-◌, ◌*◌, ◌%◌, ◌^◌, Bool, true, false, List, [], ◌∷◌, ◌++◌, Option, none, some,
  ltb, ◌==◌, ◌&&◌, if◌then◌else◌, length, get_elem?, take, Result, ok, err, Exception, ◌>>=◌,
}
use palmira.Sorting.{sort}
use palmira.Collect.Quotes.{Abstracts, set_abstract, get_abstract, no_id}
use palmira.Collect.Documents.{
  Entity, Data, Tuples, Query, Impl, less, n_limit, init, search_linear,
}

-- `max_thread_section`
abbrev pub max_thread_section : ℕ
max_thread_section = 0x4000

module _ {W T Q : Type 0} (d : Data W T Q) (tp : Tuples T) where
  -- `while ( dstptr != dstend && differ( dstptr, srcptr ) < 0 ) ++dstptr;`: what lies before
  -- `dstptr`, and what from there on.
  unfoldable pub skip :
      Entity W → List (Entity W) → List (Entity W) → List (Entity W) × List (Entity W)
  skip e pre [] = (pre, [])
  skip e pre (x ∷ xs) = elim (less d x e) [
    | true ↦ skip e (pre ++ x ∷ []) xs
    | false ↦ (pre, x ∷ xs)
  ]

  -- One entity inserted at `dstptr`, with its abstract: what then lies from `dstptr` on. A full
  -- buffer loses its last entity, `dstlim[-1]`.
  unfoldable pub place :
      Entity W
      → T
      → List (Entity W)
      → List (Entity W)
      → Abstracts T
      → Result (List (Entity W) × Abstracts T)
  place e t pre rest box =
      if ltb (length pre + length rest) (n_limit d)
      then (set_abstract tp.copy e.id t no_id box >>= λ box'. ok (e ∷ rest, box'))
      else elim (get_elem? (pre ++ rest) (n_limit d - 1)) [
        | none ↦ err Exception.undefined
        | some w ↦ set_abstract tp.copy e.id t w.id box >>= λ box'.
            ok (e ∷ take (n_limit d - length pre - 1) rest, box')
      ]

  -- The round of the insertion loop for `e`, once `dstptr` is in place: `none` is the `break`.
  unfoldable pub merge_round :
      Abstracts T
      → Entity W
      → List (Entity W)
      → List (Entity W)
      → Abstracts T
      → Result (Option (List (Entity W) × Abstracts T))
  unfolding place
  merge_round docs_box e pre rest box =
      if length pre == n_limit d then ok none else elim (get_abstract e.id docs_box) [
        | none ↦ err Exception.undefined
        | some t ↦ place e t pre rest box >>= λ placed. ok (some placed)
      ]

  -- The insertion loop over the sorted documents of another collector.
  unfoldable pub merge_loop :
      Abstracts T
      → List (Entity W)
      → List (Entity W)
      → Abstracts T
      → List (Entity W)
      → Result (List (Entity W) × Abstracts T)
  unfolding skip merge_round
  merge_loop docs_box pre rest box [] = ok (pre ++ rest, box)
  merge_loop docs_box pre rest box (e ∷ src) =
      let (pre', rest') = skip e pre rest in
      merge_round docs_box e pre' rest' box >>= λ round. elim round [
        | none ↦ ok (pre' ++ rest', box)
        | some (rest'', box') ↦ merge_loop docs_box pre' rest'' box' src
      ]

  -- impl::Insert
  unfoldable pub insert : Impl W T → Impl W T → Result (Impl W T)
  unfolding merge_loop
  insert s docs =
      merge_loop docs.quo_box [] s.buffer s.quo_box (sort (less d) docs.buffer) >>= λ (buffer, box).
      ok
        (record s { buffer = buffer; quo_box = box; n_found = (s.n_found + docs.n_found) % 2 ^ 32 })

  -- One task of the pool: a search into a collector of its own, merged if anything was found.
  unfoldable pub task : Query T → Impl W T → Result (Impl W T)
  task q s = search_linear d tp q (init d) >>= λ (hit, store). if hit then insert s store else ok s

  -- Tasks that merge their results in this order.
  unfoldable pub run_tasks : List (Query T) → Impl W T → Result (Impl W T)
  run_tasks [] s = ok s
  run_tasks (q ∷ qs) s = task q s >>= λ s'. run_tasks qs s'

  -- `for ( uint32_t uLower = 0; uLower < rBound; uLower += max_thread_section )`, on fuel.
  unfoldable pub sub_queries : (ℕ → ℕ → Option (Query T)) → ℕ → ℕ → ℕ → Result (List (Query T))
  sub_queries duplicate zero lower bound = err Exception.out_of_fuel
  sub_queries duplicate (suc fuel) lower bound =
      let upper = (lower + max_thread_section) % 2 ^ 32 in
      let more = sub_queries duplicate fuel upper bound >>= λ rest. elim (duplicate lower upper) [
        | none ↦ ok rest
        | some q ↦ ok (q ∷ rest)
      ] in
      if ltb lower bound then more else ok []

  -- What the wait leaves: the tasks that have merged when it comes back, in this order, with those
  -- that still run, or nothing if it never comes back. A run without an end is `out_of_fuel`.
  unfoldable pub after_wait :
      Option (List (Query T) × List (Query T)) → Impl W T → Result (Impl W T)
  unfolding run_tasks
  after_wait none s = err Exception.out_of_fuel
  after_wait (some (merged, running)) s = run_tasks merged s

  -- impl::Search, with the collector as it stands when Search returns. `duplicate` is `query->Duplicate`, and
  -- `wait` what `cvWait.wait` makes of the tasks of these queries.
  unfoldable pub search :
      (ℕ → ℕ → Option (Query T))
      → (List (Query T) → Option (List (Query T) × List (Query T)))
      → Query T
      → Impl W T
      → Result (Impl W T)
  unfolding after_wait
  search duplicate wait q s =
      if d.async && ltb (max_thread_section * 4) q.last_index
      then (sub_queries duplicate (2 ^ 18 + 1) 0 q.last_index >>= λ qs. after_wait (wait qs) s)
      else (search_linear d tp q s >>= λ (hit, s'). ok s')
