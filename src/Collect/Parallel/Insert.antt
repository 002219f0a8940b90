-- ===== src/Collect/Parallel/Insert.antt =====
-- impl::Insert: the best of two collectors in one.
use mathlib.Core.List.{
  Mem, Mem-prop, mem-append, Perm, append-nil, mem-append_left, mem-append_right, mem-cons_of_mem,
  perm_middle, mem-map_of_mem,
}
use mathlib.Core.List.Perm
use mathlib.Core.Logic.Or
use palmira.Prelude.{
  ◌+◌, ◌%◌, ◌^◌, ◌≤◌, ◌<◌, ◌≡◌, refl, sym, ap, ◌∙◌, ◌≢◌, subst, ℕ_discrete, nil_of_length, false,
  List, [], ◌∷◌, ◌++◌, none, some, ◌==◌, ==_iff, length, length-append, arith, Result, ok,
}
use palmira.Sorting.{sort}
use palmira.Sorting.Laws.{
  All, All-nil, All-head, All-tail, All-perm, NotAfter, All-NotAfter_cons, IsStrictWeak, IsSorted,
  IsSorted-right, sort-perm, sort-IsSorted,
}
use palmira.Sorting.Top.{IsTop-leave_out, length-perm}
use palmira.Sorting.Combine.{IsTop-kept_perm, IsTop-trans}
use palmira.Collect.Quotes.{Storage, Abstracts, get_abstract, ids, no_id}
use palmira.Collect.Quotes.Ids.{get_abstract-some}
use palmira.Collect.Documents.{Entity, Data, Tuples, Impl, less, n_limit}
use palmira.Collect.Documents.Linear.{All-seen_kept, Holds}
use palmira.Collect.Parallel.{skip, place, merge_round, merge_loop, insert}
use palmira.Collect.Parallel.Merge.{Kept, skip_parts, place-Placed}

module _ {W T Q : Type 0} (d : Data W T Q) (tp : Tuples T) {P : Entity W → Type 0}
    (o : IsStrictWeak (less d) P) (valid : (e : Entity W) → P e → e.id < no_id) where
  abbrev pub K : List (Entity W) → List (Entity W) → Abstracts T → Type 0
  K = Kept d tp o valid

  pub Kept-perm :
      (seen seen' buffer : List (Entity W)) (box : Abstracts T)
      → Perm seen seen'
      → K seen buffer box
      → K seen' buffer box
  Kept-perm seen seen' buffer box p k = record {
    top = record {
      count = omega (arith, k.top.count, length-perm seen seen' p);
      rest = k.top.rest;
      parts = Perm.trans k.top.parts p;
      best = k.top.best;
    };
    sorted = k.sorted;
    store = k.store;
    stored = k.stored;
    store_limit = k.store_limit;
    slots = k.slots;
  }

  -- A full buffer that no newcomer gets into.
  leave-All :
      (src seen buffer : List (Entity W)) (box : Abstracts T)
      → K seen buffer box
      → n_limit d ≤ length buffer
      → All (λ k. All (NotAfter (less d) k) src) buffer
      → K (src ++ seen) buffer box
  leave-All [] seen buffer box k full h = k
  leave-All (e ∷ src) seen buffer box k full h =
      let k' = leave-All src seen buffer box k full (λ x m. All-tail (h x m)) in
      record {
        top = IsTop-leave_out (less d) k'.top e full (λ x m. All-head (h x m));
        sorted = k'.sorted;
        store = k'.store;
        stored = k'.stored;
        store_limit = k'.store_limit;
        slots = k'.slots;
      }

  -- What the loop ends with: `src` merged into a collector of `seen`.
  abbrev Merged :
      List (Entity W) → List (Entity W) → Result (List (Entity W) × Abstracts T) → Type 0
  Merged src seen r =
      (buffer : List (Entity W)) × (box : Abstracts T) × (r ≡ ok (buffer, box))
      × K (src ++ seen) buffer box

  module _ (docs_store : Storage T) where
    round_break :
        (e : Entity W) (pre rest : List (Entity W)) (box : Abstracts T)
        → length pre ≡ n_limit d
        → merge_round d tp (some docs_store) e pre rest box ≡ ok none
    unfolding merge_round
    round_break e pre rest box h = rw ((==_iff (length pre) (n_limit d)).1 h)

    round_place :
        (e : Entity W) (t : T) (pre rest rest' : List (Entity W)) (box box' : Abstracts T)
        → length pre ≢ n_limit d
        → get_abstract e.id (some docs_store) ≡ some t
        → place d tp e t pre rest box ≡ ok (rest', box')
        → merge_round d tp (some docs_store) e pre rest box ≡ ok (some (rest', box'))
    unfolding merge_round
    round_place e t pre rest rest' box box' h got p = rw (differ, got, p)
      where
        differ : (length pre == n_limit d) ≡ false
        differ = ground arith

    loop_break :
        (e : Entity W) (src pre rest : List (Entity W)) (box : Abstracts T)
        → let pre' = (skip d tp e pre rest).0 in
          let rest' = (skip d tp e pre rest).1 in
          merge_round d tp (some docs_store) e pre' rest' box ≡ ok none
          → merge_loop d tp (some docs_store) pre rest box (e ∷ src) ≡ ok (pre' ++ rest', box)
    unfolding merge_loop
    loop_break e src pre rest box h = rw (h, merge_loop)

    loop_place :
        (e : Entity W) (src pre rest rest'' : List (Entity W)) (box box' : Abstracts T)
        → let pre' = (skip d tp e pre rest).0 in
          let rest' = (skip d tp e pre rest).1 in
          merge_round d tp (some docs_store) e pre' rest' box ≡ ok (some (rest'', box'))
          → merge_loop d tp (some docs_store) pre rest box (e ∷ src)
            ≡ merge_loop d tp (some docs_store) pre' rest'' box' src
    unfolding merge_loop
    loop_place e src pre rest rest'' box box' h = rw (h, merge_loop)

    merge_loop-Kept :
        (src seen pre rest : List (Entity W)) (box : Abstracts T)
        → K seen (pre ++ rest) box
        → All P (src ++ seen)
        → IsSorted (less d) src
        → All (λ e. Mem e.id (ids docs_store.items)) src
        → All (λ x. All (NotAfter (less d) x) src) pre
        → Merged src seen (merge_loop d tp (some docs_store) pre rest box src)
    merge_loop-Kept [] seen pre rest box k qs s slots ahead =
        unfold merge_loop in (pre ++ rest, box, refl, k)
    merge_loop-Kept (e ∷ src) seen pre rest box k qs s slots ahead =
        elim (ℕ_discrete (length pre') (n_limit d)) [
          | yes full ↦ (
            pre' ++ rest',
            box,
            loop_break e src pre rest box (round_break e pre' rest' box full),
            leave-All (e ∷ src) seen (pre' ++ rest') box k' (rw length-append (omega (arith, full)))
                (subst (All (λ x. All (NotAfter (less d) x) (e ∷ src))) (sym (emptied full))
                  ahead'),
          )
          | no short ↦
              let (t, got) = get_abstract-some e.id docs_store (All-head slots) in
              let (front, box', placed, kept) =
                place-Placed d tp o valid seen pre' rest' box e t k' seen_ps (All-head qs) parts.1
                  parts.2 short in
              let (buffer, box'', done, merged) =
                merge_loop-Kept src (e ∷ seen) pre' (e ∷ front) box' kept
                  (All-perm (perm_middle src seen) qs) s.1 (All-tail slots)
                  (λ x m. All-tail (ahead' x m)) in
              (
                buffer,
                box'',
                loop_place e src pre rest (e ∷ front) box box'
                      (round_place e t pre' rest' (e ∷ front) box box' short got placed)
                    ∙ done,
                Kept-perm (src ++ e ∷ seen) (e ∷ src ++ seen) buffer box'' (perm_middle src seen)
                    merged,
              )
        ]
      where
        pre' : List (Entity W)
        pre' = (skip d tp e pre rest).0

        rest' : List (Entity W)
        rest' = (skip d tp e pre rest).1

        seen_ps : All P seen
        seen_ps x m = qs x (mem-append_right (e ∷ src) m)

        rest_ps : All P rest
        rest_ps x m = All-seen_kept d k.top seen_ps x (mem-append_right pre m)

        parts :
            (pre' ++ rest' ≡ pre ++ rest)
            × All (λ x. NotAfter (less d) x e) pre'
            × All (NotAfter (less d) e) rest'
        parts =
            skip_parts d tp o valid e pre rest (All-head qs) rest_ps (λ x m. All-head (ahead x m))
              (IsSorted-right (less d) pre rest k.sorted)

        k' : K seen (pre' ++ rest') box
        k' = subst (λ l. K seen l box) (sym parts.0) k

        ahead' : All (λ x. All (NotAfter (less d) x) (e ∷ src)) pre'
        ahead' x m = All-NotAfter_cons (less d) (parts.1 x m) λ y my.
            o.not_after_trans x e y (All-seen_kept d k'.top seen_ps x (mem-append_left rest' m))
              (All-head qs) (qs y (mem-append_left seen (mem-cons_of_mem e my))) (parts.1 x m)
              (s.0 y my)

        emptied : length pre' ≡ n_limit d → pre' ++ rest' ≡ pre'
        emptied full =
            ap (◌++◌ pre')
              (nil_of_length rest' (omega (arith, k'.top.count, length-append pre' rest', full)))
            ∙ append-nil pre'

  -- `Insert` takes the best of another collector's lot into a sorted collector, which then holds the
  -- best of both lots, sorted, with their abstracts. It does not throw, and finds every abstract.
  pub insert-Kept :
      (lot seen : List (Entity W)) (s docs : Impl W T)
      → K seen s.buffer s.quo_box
      → Holds d lot docs
      → All P (lot ++ seen)
      → (s' : Impl W T) × (insert d tp s docs ≡ ok s')
        × K (lot ++ seen) s'.buffer s'.quo_box
        × (s'.n_found ≡ (s.n_found + docs.n_found) % 2 ^ 32)
  unfolding insert
  insert-Kept lot seen s docs k h ps =
      let (buffer, box, run, merged) =
        merge_loop-Kept h.store src seen [] s.buffer s.quo_box k src_ps
          (sort-IsSorted (less d) P o docs.buffer docs_ps) slots (All-nil _) in
      (
        record s { buffer = buffer; quo_box = box; n_found = (s.n_found + docs.n_found) % 2 ^ 32 },
        rw (h.stored, run, insert),
        record {
          top =
              IsTop-trans (less d) o (n_limit d) lot seen src buffer
                (IsTop-kept_perm (less d) (sort-perm (less d) P docs.buffer) h.top) merged.top ps;
          sorted = merged.sorted;
          store = merged.store;
          stored = merged.stored;
          store_limit = merged.store_limit;
          slots = merged.slots;
        },
        refl,
      )
    where
      src : List (Entity W)
      src = sort (less d) docs.buffer

      docs_ps : All P docs.buffer
      docs_ps = All-seen_kept d h.top (λ x m. ps x (mem-append_left seen m))

      src_ps : All P (src ++ seen)
      src_ps x m = ps x (
          Or.elim Mem-prop (mem-append.0 m)
            (λ a. mem-append_left seen (
              (Perm.mem_iff h.top.parts).0 (
                mem-append_left h.top.rest
                  ((Perm.mem_iff (sort-perm (less d) P docs.buffer)).0 a))))
            (λ b. mem-append_right lot b))

      slots : All (λ e. Mem e.id (ids h.store.items)) src
      slots e m =
          (Perm.mem_iff h.slots).1
            (mem-map_of_mem (λ x. x.id) ((Perm.mem_iff (sort-perm (less d) P docs.buffer)).0 m))
