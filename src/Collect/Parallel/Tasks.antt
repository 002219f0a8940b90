-- ===== src/Collect/Parallel/Tasks.antt =====
-- The tasks of a parallel search, one after the other as they take the lock.
use mathlib.Core.List.{Perm, append_assoc, mem-append_left, mem-append_right, perm_append_comm}
use mathlib.Core.List.Perm
use palmira.Prelude.{
  ◌%◌, ◌^◌, ◌<◌, ◌≡◌, refl, sym, subst, inl, inr, List, [], ◌∷◌, ◌++◌, ◌==◌, ==_iff, length,
  length-append, Bool-cases, arith, ok, nil_of_length,
}
use palmira.Sorting.Laws.{All, All-head, All-tail, All-perm, IsStrictWeak}
use palmira.Sorting.Top.{length-perm}
use palmira.Collect.Quotes.{no_id}
use palmira.Collect.Documents.{Entity, Data, Tuples, Query, Impl, less, n_limit}
use palmira.Collect.Documents.Search.{IsAscending, found, length-found, search_linear-Counts}
use palmira.Collect.Parallel.{task, run_tasks}
use palmira.Collect.Parallel.Merge.{Kept}
use palmira.Collect.Parallel.Insert.{Kept-perm, insert-Kept}

-- All that the sub-queries find.
unfoldable pub all_found :
    {W T Q : Type 0} → Data W T Q → Tuples T → List (Query T) → List (Entity W)
all_found d tp [] = []
all_found d tp (q ∷ qs) = found d tp q ++ all_found d tp qs

module _ {W T Q : Type 0} (d : Data W T Q) (tp : Tuples T) {P : Entity W → Type 0}
    (o : IsStrictWeak (less d) P) (valid : (e : Entity W) → P e → e.id < no_id)
    (positive : 0 < n_limit d) where
  -- A collector that holds the best of `seen`, sorted, and counts all of it.
  abbrev pub Merges : List (Entity W) → Impl W T → Type 0
  Merges seen s = Kept d tp o valid seen s.buffer s.quo_box × (s.n_found ≡ length seen % 2 ^ 32)

  task-Merges :
      (q : Query T) (seen : List (Entity W)) (s : Impl W T)
      → IsAscending q
      → Merges seen s
      → All P (found d tp q ++ seen)
      → (s' : Impl W T) × (task d tp q s ≡ ok s') × Merges (found d tp q ++ seen) s'
  unfolding task
  task-Merges q seen s asc m ps =
      let (store, run, h) =
        search_linear-Counts d o valid tp q positive asc (λ x mx. ps x (mem-append_left seen mx)) in
      elim (Bool-cases (store.n_found == 0)) [
        | inl nothing ↦
            let none_found =
              nil_of_length (found d tp q)
                (omega (arith, (==_iff store.n_found 0).0 nothing, h.1, length-found d tp q asc)) in
            (s, rw (run, nothing), subst (λ l. Merges (l ++ seen) s) (sym none_found) m)
        | inr some_found ↦
            let (s', merged, kept, counted) =
              insert-Kept d tp o valid (found d tp q) seen s store m.0 h.0 ps in
            (
              s',
              rw (run, some_found) merged,
              (kept, omega (arith, counted, m.1, h.1, length-append (found d tp q) seen)),
            )
      ]

  pub run_tasks-Merges :
      (qs : List (Query T)) (seen : List (Entity W)) (s : Impl W T)
      → All IsAscending qs
      → Merges seen s
      → All P (all_found d tp qs ++ seen)
      → (s' : Impl W T) × (run_tasks d tp qs s ≡ ok s') × Merges (all_found d tp qs ++ seen) s'
  unfolding run_tasks all_found
  run_tasks-Merges [] seen s asc m ps = (s, refl, m)
  run_tasks-Merges (q ∷ qs) seen s asc m ps =
      let (s1, step, m1) =
        task-Merges q seen s (All-head asc) m
          (λ x mx. ps x ((Perm.mem_iff swapped).0 (mem-append_right (all_found d tp qs) mx))) in
      let (s2, rest, m2) =
        run_tasks-Merges qs (found d tp q ++ seen) s1 (All-tail asc) m1 (All-perm swapped ps) in
      (
        s2,
        rw step rest,
        (
          Kept-perm d tp o valid _ _ s2.buffer s2.quo_box swapped m2.0,
          omega (arith, m2.1, length-perm _ _ swapped),
        ),
      )
    where
      swapped :
          Perm
            (all_found d tp qs ++ (found d tp q ++ seen))
            ((found d tp q ++ all_found d tp qs) ++ seen)
      swapped =
          rw (← append_assoc)
            (Perm.append_right seen (perm_append_comm (all_found d tp qs) (found d tp q)))
