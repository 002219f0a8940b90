-- ===== src/Collect/Parallel/Whole.antt =====
-- impl::Search as a whole, on one thread or many, with whatever the wait for the tasks does.
use mathlib.Core.List.{
  mem-append_left, Perm, Permᴰ, Perm-prop, append_assoc, append-nil, perm_append_comm,
}
use mathlib.Core.List.Perm
use mathlib.Core.Logic.{∥∥₁_elim}
use palmira.Prelude.{
  ℕ, ◌+◌, ◌*◌, ◌%◌, ◌^◌, ◌<◌, ◌≤◌, ◌≡◌, refl, ap, ◌∙◌, ◌⊎◌, true, false, none, err, Exception, [],
  ◌∷◌, sym, subst, inl, inr, List, ◌++◌, Option, some, ltb, ◌&&◌, length, Bool-cases, arith, Result,
  ok, ◌>>=◌,
}
use palmira.Sorting.Laws.{All, All-perm, IsStrictWeak, IsSorted}
use palmira.Sorting.Top.{IsTop, length-perm}
use palmira.Collect.Quotes.{Storage, ids, no_id}
use palmira.Collect.Documents.{
  Entity, Data, Tuples, Query, Impl, less, n_limit, init, search_linear,
}
use palmira.Collect.Documents.Linear.{entity_ids, Holds, init-Holds, init_found, init_buffer}
use palmira.Collect.Documents.Search.{IsAscending, found, search_linear-Counts}
use palmira.Collect.Parallel.{max_thread_section, run_tasks, after_wait, sub_queries, search}
use palmira.Collect.Parallel.Insert.{Kept-perm}
use palmira.Collect.Parallel.Tasks.{all_found, Merges, run_tasks-Merges}
use palmira.Collect.Parallel.Sections.{IsSplit, sub_queries-Covers, from_id_all}

-- A collector that holds the best of `seen` in some order, with an abstract for each, and has counted
-- all of `seen`.
pub record Collected {W T Q : Type 0} (d : Data W T Q) (seen : List (Entity W)) (s : Impl W T)
    : Type 0 where
  pub top : IsTop (less d) (n_limit d) seen s.buffer
  pub store : Storage T
  pub stored : s.quo_box ≡ some store
  pub slots : Perm (ids store.items) (entity_ids s.buffer)
  pub counted : s.n_found ≡ length seen % 2 ^ 32

-- The tasks that have merged when a wait comes back and those that still run are all there are.
pub record IsWait {T : Type 0} (wait : List (Query T) → Option (List (Query T) × List (Query T)))
    : Type 0 where
  pub parts :
      (qs merged running : List (Query T))
      → wait qs ≡ some (merged, running)
      → Perm (merged ++ running) qs

block_swap : {A : Type 0} (xs ys zs : List A) → Perm (xs ++ (ys ++ zs)) (ys ++ (xs ++ zs))
block_swap xs ys zs =
    subst (λ l. Perm l (ys ++ (xs ++ zs))) (append_assoc xs ys zs)
      (subst (Perm ((xs ++ ys) ++ zs)) (append_assoc ys xs zs)
        (Perm.append_right zs (perm_append_comm xs ys)))

module _ {W T Q : Type 0} (d : Data W T Q) (tp : Tuples T) where
  all_found-permᴰ :
      {qs qs' : List (Query T)} → Permᴰ qs qs' → Perm (all_found d tp qs) (all_found d tp qs')
  unfolding all_found
  all_found-permᴰ Permᴰ.nil = Perm.rfl
  all_found-permᴰ (Permᴰ.cons {b = b} e p) =
      rw e (Perm.append_left (found d tp b) (all_found-permᴰ p))
  all_found-permᴰ (Permᴰ.swap {a' = a} {b' = b} {l = l} e f) =
      rw (e, f) (block_swap (found d tp b) (found d tp a) (all_found d tp l))
  all_found-permᴰ (Permᴰ.trans p q) = Perm.trans (all_found-permᴰ p) (all_found-permᴰ q)

  all_found-perm :
      (qs qs' : List (Query T)) → Perm qs qs' → Perm (all_found d tp qs) (all_found d tp qs')
  all_found-perm qs qs' p = ∥∥₁_elim p Perm-prop all_found-permᴰ

  all_found-append :
      (xs ys : List (Query T)) → all_found d tp (xs ++ ys) ≡ all_found d tp xs ++ all_found d tp ys
  unfolding all_found
  all_found-append [] ys = refl
  all_found-append (x ∷ xs) ys =
      ap (◌++◌ (found d tp x)) (all_found-append xs ys)
      ∙ sym (append_assoc (found d tp x) (all_found d tp xs) (all_found d tp ys))

  module _ (q : Query T) (duplicate : ℕ → ℕ → Option (Query T)) where
    -- What holds after the wait: `Stuck` if it never comes back, and `R` of what has been found by the
    -- tasks that have merged, which is all that the query finds if no task still runs.
    abbrev pub Waited :
        Type 0 → (List (Entity W) → Type 0) → Option (List (Query T) × List (Query T)) → Type 0
    Waited Stuck R none = Stuck
    Waited Stuck R (some (merged, [])) = R (found d tp q)
    Waited Stuck R (some (merged, r ∷ running)) = R (all_found d tp merged)

    -- What holds after a search: `R` of all that the query finds if it is searched for on one thread,
    -- and else what the wait for the tasks of its sections leads to.
    abbrev pub Outcome :
        (List (Query T) → Option (List (Query T) × List (Query T)))
        → Type 0
        → (List (Entity W) → Type 0)
        → Type 0
    Outcome wait Stuck R =
        (((d.async && ltb (max_thread_section * 4) q.last_index) ≡ false) × R (found d tp q))
        ⊎ (((d.async && ltb (max_thread_section * 4) q.last_index) ≡ true)
            × (qs : List (Query T)) × (sub_queries d tp duplicate (2 ^ 18 + 1) 0 q.last_index
                ≡ ok qs)
            × Waited Stuck R (wait qs))

    Waited-map :
        {S S' : Type 0} {R R' : List (Entity W) → Type 0}
        → (S → S')
        → ((seen : List (Entity W)) → R seen → R' seen)
        → (w : Option (List (Query T) × List (Query T))) → Waited S R w
        → Waited S' R' w
    Waited-map f g none h = f h
    Waited-map f g (some (merged, [])) h = g _ h
    Waited-map f g (some (merged, r ∷ running)) h = g _ h

    pub Outcome-map :
        {S S' : Type 0} {R R' : List (Entity W) → Type 0}
        → (S → S')
        → ((seen : List (Entity W)) → R seen → R' seen)
        → (wait : List (Query T) → Option (List (Query T) × List (Query T))) → Outcome wait S R
        → Outcome wait S' R'
    Outcome-map f g wait (inl (one, h)) = inl (one, g _ h)
    Outcome-map f g wait (inr (many, qs, cut, h)) = inr (many, qs, cut, Waited-map f g (wait qs) h)

    -- `seen` is a part of what the query finds.
    abbrev pub IsPart : List (Entity W) → Type 0
    IsPart seen = (rest : List (Entity W)) × Perm (seen ++ rest) (found d tp q)

    -- A search has ended with the best of `seen`, which is a part of what the query finds.
    abbrev pub Finds : Result (Impl W T) → List (Entity W) → Type 0
    Finds r seen = (s : Impl W T) × (r ≡ ok s) × Collected d seen s × IsPart seen

  module _ {P : Entity W → Type 0} (o : IsStrictWeak (less d) P)
      (valid : (e : Entity W) → P e → e.id < no_id) (positive : 0 < n_limit d) (q : Query T)
      (duplicate : ℕ → ℕ → Option (Query T)) (split : IsSplit d tp q duplicate)
      (ps : All P (found d tp q)) where
    linear-Finds :
        Finds q duplicate (search_linear d tp q (init d) >>= λ (hit, s). ok s) (found d tp q)
    linear-Finds =
        let (s, run, h) = search_linear-Counts d o valid tp q positive split.ascending ps in
        (
          s,
          rw run,
          record {
            top = h.0.top;
            store = h.0.store;
            stored = h.0.stored;
            slots = h.0.slots;
            counted = h.1;
          },
          ([], rw append-nil Perm.rfl),
        )

    init-Merges : Merges d tp o valid positive [] (init d)
    init-Merges = (
      record {
        top = h.top;
        sorted = subst (IsSorted (less d)) (sym (init_buffer d)) tt;
        store = h.store;
        stored = h.stored;
        store_limit = h.store_limit;
        slots = h.slots;
      },
      init_found d,
    )
      where
        h : Holds d [] (init d)
        h = init-Holds d

    merged-Finds :
        (merged : List (Query T)) (seen rest : List (Entity W))
        → All IsAscending merged
        → Perm (all_found d tp merged ++ []) seen
        → Perm (seen ++ rest) (found d tp q)
        → Finds q duplicate (run_tasks d tp merged (init d)) seen
    merged-Finds merged seen rest asc all part =
        let (s, run, m) =
          run_tasks-Merges d tp o valid positive merged [] (init d) asc init-Merges
            (All-perm all (λ x h. All-perm part ps x (mem-append_left rest h))) in
        let k = Kept-perm d tp o valid _ _ s.buffer s.quo_box all m.0 in
        (
          s,
          run,
          record {
            top = k.top;
            store = k.store;
            stored = k.stored;
            slots = k.slots;
            counted = omega (arith, m.1, length-perm _ _ all);
          },
          (rest, part),
        )

    after_wait-Waited :
        (qs : List (Query T))
        → All IsAscending qs
        → Perm (all_found d tp qs) (found d tp q)
        → (w : Option (List (Query T) × List (Query T)))
        → ((merged running : List (Query T))
            → w ≡ some (merged, running)
            → Perm (merged ++ running) qs)
        → Waited q duplicate
            (after_wait d tp w (init d) ≡ err Exception.out_of_fuel)
            (Finds q duplicate (after_wait d tp w (init d)))
            w
    unfolding after_wait
    after_wait-Waited qs asc cover none h = refl
    after_wait-Waited qs asc cover (some (merged, [])) h =
        let p : Perm merged qs = subst (λ l. Perm l qs) (append-nil merged) (h merged [] refl) in
        merged-Finds merged (found d tp q) [] (All-perm p asc)
          (rw append-nil (Perm.trans (all_found-perm merged qs p) cover)) (rw append-nil Perm.rfl)
    after_wait-Waited qs asc cover (some (merged, r ∷ running)) h =
        let p : Perm (merged ++ r ∷ running) qs = h merged (r ∷ running) refl in
        merged-Finds merged (all_found d tp merged) (all_found d tp (r ∷ running))
          (λ x m. All-perm p asc x (mem-append_left (r ∷ running) m)) (rw append-nil Perm.rfl)
          (subst (λ l. Perm l (found d tp q)) (all_found-append merged (r ∷ running))
            (Perm.trans (all_found-perm (merged ++ r ∷ running) qs p) cover))

    -- What a search comes to, with whatever `cvWait.wait` does. On one thread it ends without an exception,
    -- with the best of all that the query finds. On many it is cut into sections; if the wait never comes
    -- back, neither does the search; if it comes back when all tasks have merged, in any order, the
    -- search ends with the best of all that the query finds; and if some tasks still run, with the best
    -- of what the sections that have merged find. There is an abstract of each entry, and the
    -- number of all found is counted. The comparator is a strict weak order on what is found, the
    -- collector has room for an entry, and the query is ascending, split as asked and within 32 bits.
    pub search-Finds :
        (wait : List (Query T) → Option (List (Query T) × List (Query T)))
        → IsWait wait
        → q.last_index + max_thread_section ≤ 2 ^ 32
        → Outcome q duplicate wait
            (search d tp duplicate wait q (init d) ≡ err Exception.out_of_fuel)
            (Finds q duplicate (search d tp duplicate wait q (init d)))
    unfolding search
    search-Finds wait w fits =
        elim (Bool-cases (d.async && ltb (max_thread_section * 4) q.last_index)) [
          | inl many ↦
              let (qs, cut, asc, cover) =
                sub_queries-Covers d tp q duplicate split (2 ^ 18 + 1) 0 fits (omega arith)
                  (omega arith) in
              let cover' : Perm (all_found d tp qs) (found d tp q) =
                subst (Perm (all_found d tp qs)) (from_id_all (found d tp q)) cover in
              let waited =
                after_wait-Waited qs asc cover' (wait qs)
                  (λ merged running e. w.parts qs merged running e) in
              rw many (inr (refl, qs, cut, rw cut waited))
          | inr one ↦ rw one (inl (refl, linear-Finds))
        ]
