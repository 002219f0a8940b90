-- ===== src/Collect/Documents/Search.antt =====
-- impl::Search over one query, from the first document to the last.
use mathlib.Core.List.{Perm, perm_middle, mem-append_right, append-nil}
use mathlib.Core.List.Perm
use native.Mathlib.Bridge.{le_prop}
use palmira.Prelude.{
  ℕ, zero, suc, ◌+◌, ◌%◌, ◌^◌, ◌≤◌, ◌<◌, ◌≡◌, sym, ap, ◌∙◌, subst, inl, inr, true, false, not, List,
  [], ◌∷◌, ◌++◌, length, if◌then◌else◌, ◌==◌, Bool-cases, arith, Result, ok,
}
use palmira.Sorting.Laws.{All, All-head, All-perm, IsStrictWeak}
use palmira.Sorting.Top.{length-perm}
use palmira.Collect.Quotes.{no_id}
use palmira.Collect.Documents.{
  Entity, Data, Tuples, Query, Impl, less, n_limit, init, visit, search_loop, search_linear,
}
use palmira.Collect.Documents.Linear.{Holds, init-Holds, init_found, accept-Holds}

-- What structo documents of `SearchDoc`: it returns the first document from its argument on, or
-- `uint32_t(-1)`.
pub record IsAscending {T : Type 0} (q : Query T) : Type 0 where
  pub advances : (u : ℕ) → u < 2 ^ 32 → u ≤ q.search_doc u
  pub in_range : (u : ℕ) → q.search_doc u ≤ no_id

pub IsAscending-prop : {T : Type 0} {q : Query T} → IsProp (IsAscending q)
IsAscending-prop = hlevel le_prop

-- The documents that the query walks through, from `id` on.
unfoldable pub documents : {T : Type 0} → Query T → ℕ → ℕ → List ℕ
documents q zero id = []
documents q (suc fuel) id =
    let next = q.search_doc ((id + 1) % 2 ^ 32) in
    let rest = next ∷ documents q fuel next in if next == no_id then [] else rest

module _ {W T Q : Type 0} (d : Data W T Q) (tp : Tuples T) (q : Query T) where
  -- Of these, the ones with an abstract, with their weights.
  unfoldable pub relevant : List ℕ → List (Entity W)
  relevant [] = []
  relevant (i ∷ is) =
      if tp.is_none (q.get_tuples i)
      then relevant is
      else record { id = i; weight = d.ranker i (q.get_tuples i) } ∷ relevant is

  -- All that the query finds.
  unfoldable pub found : List (Entity W)
  found = relevant (documents q (2 ^ 32) 0)

module _ {W T Q : Type 0} (d : Data W T Q) where
  pub Holds-perm :
      {seen seen' : List (Entity W)} {s : Impl W T}
      → Perm seen seen'
      → Holds d seen s
      → Holds d seen' s
  Holds-perm {seen} {seen'} p h = record {
    top = record {
      count = omega (arith, h.top.count, length-perm seen seen' p);
      rest = h.top.rest;
      parts = Perm.trans h.top.parts p;
      best = h.top.best;
    };
    cached = h.cached;
    store = h.store;
    stored = h.stored;
    store_limit = h.store_limit;
    slots = h.slots;
  }

  module _ {P : Entity W → Type 0} (o : IsStrictWeak (less d) P)
      (valid : (e : Entity W) → P e → e.id < no_id) (tp : Tuples T) (q : Query T)
      (positive : 0 < n_limit d) where
    -- What holds after the documents `seen`, with the count of them.
    abbrev pub Counts : List (Entity W) → Impl W T → Type 0
    Counts seen s = Holds d seen s × (s.n_found ≡ length seen % 2 ^ 32)

    visit_relevant-Counts :
        (seen : List (Entity W)) (s : Impl W T) (i : ℕ)
        → Counts seen s
        → All P seen
        → P (record { id = i; weight = d.ranker i (q.get_tuples i) })
        → tp.is_none (q.get_tuples i) ≡ false
        → (s' : Impl W T) × (visit d tp i (q.get_tuples i) s ≡ ok s')
          × Counts (record { id = i; weight = d.ranker i (q.get_tuples i) } ∷ seen) s'
    unfolding visit
    visit_relevant-Counts seen s i c ps pe h =
        let (s', step, kept, same) =
          accept-Holds d o valid tp seen counted
            (record { id = i; weight = d.ranker i (q.get_tuples i) }) (q.get_tuples i) held ps pe
            positive in
        (s', rw (h, visit) step, (kept, same ∙ counts))
      where
        counted : Impl W T
        counted = record s { n_found = (s.n_found + 1) % 2 ^ 32 }

        held : Holds d seen counted
        held = record {
          top = c.0.top;
          cached = c.0.cached;
          store = c.0.store;
          stored = c.0.stored;
          store_limit = c.0.store_limit;
          slots = c.0.slots;
        }

        counts : (s.n_found + 1) % 2 ^ 32 ≡ suc (length seen) % 2 ^ 32
        counts = omega (arith, c.1)

    -- The next document of the loop.
    abbrev next_of : ℕ → ℕ
    next_of id = q.search_doc ((id + 1) % 2 ^ 32)

    documents_more :
        (fuel id : ℕ)
        → (next_of id == no_id) ≡ false
        → documents q (suc fuel) id ≡ next_of id ∷ documents q fuel (next_of id)
    unfolding documents
    documents_more fuel id h = rw h

    search_loop_more :
        (fuel id : ℕ) (s s' : Impl W T)
        → (next_of id == no_id) ≡ false
        → visit d tp (next_of id) (q.get_tuples (next_of id)) s ≡ ok s'
        → search_loop d tp q (suc fuel) id s ≡ search_loop d tp q fuel (next_of id) s'
    unfolding search_loop
    search_loop_more fuel id s s' h v = rw (h, v)

    relevant_skip :
        (i : ℕ) (is : List ℕ)
        → tp.is_none (q.get_tuples i) ≡ true
        → relevant d tp q (i ∷ is) ≡ relevant d tp q is
    unfolding relevant
    relevant_skip i is h = rw h

    relevant_hit :
        (i : ℕ) (is : List ℕ)
        → tp.is_none (q.get_tuples i) ≡ false
        → relevant d tp q (i ∷ is)
          ≡ record { id = i; weight = d.ranker i (q.get_tuples i) } ∷ relevant d tp q is
    unfolding relevant
    relevant_hit i is h = rw h

    visit_skip :
        (i : ℕ) (s : Impl W T)
        → tp.is_none (q.get_tuples i) ≡ true
        → visit d tp i (q.get_tuples i) s ≡ ok s
    unfolding visit
    visit_skip i s h = rw h

    next_in_range :
        (id : ℕ)
        → IsAscending q
        → id < no_id
        → (next_of id == no_id) ≡ false
        → (id < next_of id) × (next_of id < no_id)
    next_in_range id asc h more =
        ground (arith, asc.advances ((id + 1) % 2 ^ 32), asc.in_range ((id + 1) % 2 ^ 32))

    abbrev Ends : List ℕ → List (Entity W) → Result (Impl W T) → Type 0
    Ends is seen r = (s' : Impl W T) × (r ≡ ok s') × Counts (relevant d tp q is ++ seen) s'

    abbrev entity_at : ℕ → Entity W
    entity_at i = record { id = i; weight = d.ranker i (q.get_tuples i) }

    Ends-middle :
        (e : Entity W) (rest seen : List (Entity W)) (r : Result (Impl W T))
        → (s' : Impl W T) × (r ≡ ok s') × Counts (rest ++ e ∷ seen) s'
        → (s' : Impl W T) × (r ≡ ok s') × Counts ((e ∷ rest) ++ seen) s'
    Ends-middle e rest seen r (s', run, c) = (
      s',
      run,
      (
        Holds-perm (perm_middle rest seen) c.0,
        omega (arith, c.1, length-perm _ _ (perm_middle {a = e} rest seen)),
      ),
    )

    search_loop-Counts :
        (fuel id : ℕ) (seen : List (Entity W)) (s : Impl W T)
        → IsAscending q
        → id < no_id
        → no_id ≤ id + fuel
        → Counts seen s
        → All P (relevant d tp q (documents q fuel id) ++ seen)
        → Ends (documents q fuel id) seen (search_loop d tp q fuel id s)
    search_loop-Counts zero id seen s asc h enough c ps = absurd (omega arith)
    search_loop-Counts (suc fuel) id seen s asc h enough c ps =
        elim (Bool-cases (next_of id == no_id)) [
          | inl last ↦ unfold search_loop documents relevant in (s, rw last, rw last c)
          | inr more ↦
              let range = next_in_range id asc h more in
              let split = documents_more fuel id more in
              rw split (elim (Bool-cases (tp.is_none (q.get_tuples (next_of id)))) [
                | inl skip ↦
                    let same = relevant_skip (next_of id) (documents q fuel (next_of id)) skip in
                    rw (search_loop_more fuel id s s more (visit_skip (next_of id) s skip), same)
                      (search_loop-Counts fuel (next_of id) seen s asc range.1 (omega arith) c
                        (subst (λ is. All P (is ++ seen)) (ap (relevant d tp q) split ∙ same) ps))
                | inr hit ↦
                    let e : Entity W = entity_at (next_of id) in
                    let rest = relevant d tp q (documents q fuel (next_of id)) in
                    let same = relevant_hit (next_of id) (documents q fuel (next_of id)) hit in
                    let ps' =
                      subst (λ is. All P (is ++ seen)) (ap (relevant d tp q) split ∙ same) ps in
                    let (s1, step, c1) =
                      visit_relevant-Counts seen s (next_of id) c
                        (λ x m. ps' x (mem-append_right (e ∷ rest) m)) (All-head ps') hit in
                    rw (search_loop_more fuel id s s1 more step, same)
                      (Ends-middle e rest seen (search_loop d tp q fuel (next_of id) s1) (
                        search_loop-Counts fuel (next_of id) (e ∷ seen) s1 asc range.1 (omega arith)
                          c1 (All-perm (perm_middle rest seen) ps')))
              ])
        ]

    -- A whole search, started on an empty collector, ends without an exception; it has kept the best
    -- of what the query finds and counted all of it.
    pub search_linear-Counts :
        IsAscending q
        → All P (found d tp q)
        → (s : Impl W T) × (search_linear d tp q (init d) ≡ ok (not (s.n_found == 0), s))
          × Counts (found d tp q) s
    unfolding search_linear found
    search_linear-Counts asc ps =
        let (s, run, c) =
          search_loop-Counts (2 ^ 32) 0 [] (init d) asc (omega arith) (omega arith)
            (init-Holds d, init_found d) (subst (All P) (sym (append-nil (found d tp q))) ps) in
        (s, rw (run, search_linear), subst (λ l. Counts l s) (append-nil (found d tp q)) c)

  -- A query finds fewer documents than there are numbers for them.
  length-documents :
      (q : Query T) (fuel id : ℕ)
      → IsAscending q
      → id < no_id
      → length (documents q fuel id) + id < no_id
  unfolding documents
  length-documents q zero id asc h = omega arith
  length-documents q (suc fuel) id asc h = ground (
    arith,
    asc.advances ((id + 1) % 2 ^ 32),
    asc.in_range ((id + 1) % 2 ^ 32),
    length-documents q fuel (q.search_doc ((id + 1) % 2 ^ 32)) asc,
  )

  length-relevant :
      (tp : Tuples T) (q : Query T) (is : List ℕ) → length (relevant d tp q is) ≤ length is
  unfolding relevant
  length-relevant tp q [] = omega arith
  length-relevant tp q (i ∷ is) = ground (arith, length-relevant tp q is)

  pub length-found : (tp : Tuples T) (q : Query T) → IsAscending q → length (found d tp q) < 2 ^ 32
  unfolding found
  length-found tp q asc = omega (
    arith,
    length-relevant tp q (documents q (2 ^ 32) 0),
    length-documents q (2 ^ 32) 0 asc (omega arith),
  )
