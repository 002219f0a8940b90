-- ===== src/Collect/Parallel/Merge.antt =====
-- The insertion loop: a sorted collector takes in the sorted documents of another.
use mathlib.Core.List.{
  Mem, Perm, append_assoc, map-append, mem-map_of_mem, mem-append_left, mem-append_right,
  mem-cons_self, perm_middle, perm_append_singleton,
}
use mathlib.Core.List.Perm
use palmira.Prelude.{
  suc, ◌+◌, ◌-◌, ◌≤◌, ◌<◌, ◌≡◌, refl, sym, ap, ◌∙◌, ◌≢◌, subst, inl, inr, true, List, [], ◌∷◌, ◌++◌,
  some, ltb, length, length-append, get_elem?, take, Bool-cases, lt→ltb, le→ltb_false, ltb→lt,
  ltb_false→le, arith, Result, ok, get_elem?-append_right, split_last,
}
use palmira.Sorting.Laws.{
  All, All-nil, All-head, All-tail, NotAfter, NotAfter-prop, All-NotAfter_cons,
  All-NotAfter_of_head, IsStrictWeak, IsSorted, IsSorted-append, IsSorted-left, IsSorted-right,
  IsSorted-apart, irreflexive, All-snoc,
}
use palmira.Sorting.Top.{IsTop, IsTop-append, IsTop-replace}
use palmira.Sorting.Combine.{IsTop-kept_perm}
use palmira.Collect.Quotes.{Storage, Abstracts, set_abstract, ids, no_id}
use palmira.Collect.Quotes.Ids.{ids-append, set_abstract-replace, set_abstract-append}
use palmira.Collect.Documents.{Entity, Data, Tuples, less, n_limit}
use palmira.Collect.Documents.Linear.{entity_ids, All-seen_kept, no_id_free, length-slots}
use palmira.Collect.Parallel.{skip, place}

module _ {W T Q : Type 0} (d : Data W T Q) (tp : Tuples T) {P : Entity W → Type 0}
    (o : IsStrictWeak (less d) P) (valid : (e : Entity W) → P e → e.id < no_id) where
  -- A sorted buffer with the best of `seen`, and a store with a slot for each entity of it.
  pub record Kept (seen buffer : List (Entity W)) (box : Abstracts T) : Type 0 where
    pub top : IsTop (less d) (n_limit d) seen buffer
    pub sorted : IsSorted (less d) buffer
    pub store : Storage T
    pub stored : box ≡ some store
    pub store_limit : store.limit ≡ n_limit d
    pub slots : Perm (ids store.items) (entity_ids buffer)

  -- Where `dstptr` stops: after all that comes before `e`, and before all that does not.
  pub skip_parts :
      (e : Entity W) (pre rest : List (Entity W))
      → P e
      → All P rest
      → All (λ x. NotAfter (less d) x e) pre
      → IsSorted (less d) rest
      → ((skip d tp e pre rest).0 ++ (skip d tp e pre rest).1 ≡ pre ++ rest)
        × All (λ x. NotAfter (less d) x e) (skip d tp e pre rest).0
        × All (NotAfter (less d) e) (skip d tp e pre rest).1
  unfolding skip
  skip_parts e pre [] pe ps ahead s = (refl, ahead, All-nil _)
  skip_parts e pre (x ∷ xs) pe ps ahead s = elim (Bool-cases (less d x e)) [
    | inl h ↦
        let (same, before, after) =
          skip_parts e (pre ++ x ∷ []) xs pe (All-tail ps) (longer h) s.1 in
        rw (h, skip) (same ∙ append_assoc pre (x ∷ []) xs, before, after)
    | inr h ↦ rw (h, skip) (refl, ahead, All-NotAfter_of_head (less d) P o e x xs pe ps h s.0)
  ]
    where
      longer : less d x e ≡ true → All (λ y. NotAfter (less d) y e) (pre ++ x ∷ [])
      longer h =
          All-snoc x pre (λ y. NotAfter-prop (less d) y e) ahead (o.asym x e (All-head ps) pe h)

  module _ (seen pre rest : List (Entity W)) (box : Abstracts T) (e : Entity W) (t : T)
      (k : Kept seen (pre ++ rest) box) (ps : All P seen) (pe : P e)
      (before : All (λ x. NotAfter (less d) x e) pre) (after : All (NotAfter (less d) e) rest) where
    -- The sorted buffer with `e` in it and `front` of what came after.
    between_IsSorted :
        (front : List (Entity W))
        → IsSorted (less d) front
        → All (NotAfter (less d) e) front
        → All (λ x. All (NotAfter (less d) x) front) pre
        → IsSorted (less d) (pre ++ e ∷ front)
    between_IsSorted front s late apart =
        IsSorted-append (less d) P o pre (e ∷ front) (IsSorted-left (less d) pre rest k.sorted)
          (late, s) (λ x m. All-NotAfter_cons (less d) (before x m) (apart x m))

    -- What a placed entity leaves behind.
    abbrev pub Placed : Result (List (Entity W) × Abstracts T) → Type 0
    Placed r =
        (front : List (Entity W)) × (box' : Abstracts T) × (r ≡ ok (e ∷ front, box'))
        × Kept (e ∷ seen) (pre ++ e ∷ front) box'

    kept_ps : All P (pre ++ rest)
    kept_ps = All-seen_kept d k.top ps

    place_room : length pre + length rest < n_limit d → Placed (place d tp e t pre rest box)
    unfolding place
    place_room room = (
      rest,
      some store',
      rw (lt→ltb _ _ room, k.stored, setting),
      record {
        top =
            IsTop-kept_perm (less d) moved (IsTop-append (less d) k.top e (rw length-append room));
        sorted =
            between_IsSorted rest (IsSorted-right (less d) pre rest k.sorted) after
              (IsSorted-apart (less d) pre rest k.sorted);
        store = store';
        stored = refl;
        store_limit = k.store_limit;
        slots = slots';
      },
    )
      where
        store' : Storage T
        store' = record k.store { items = k.store.items ++ (e.id, tp.copy t) ∷ [] }

        moved : Perm (pre ++ e ∷ rest) ((pre ++ rest) ++ e ∷ [])
        moved =
            Perm.trans (perm_middle pre rest) (Perm.symm (perm_append_singleton e (pre ++ rest)))

        setting : set_abstract tp.copy e.id t no_id (some k.store) ≡ ok (some store')
        setting =
            set_abstract-append tp.copy e.id no_id t k.store
              (λ m. no_id_free d o valid tp (pre ++ rest) kept_ps ((Perm.mem_iff k.slots).0 m))
              (omega (
                arith,
                length-slots d o valid tp (pre ++ rest) k.store.items k.slots,
                k.store_limit,
                length-append pre rest,
              ))

        slots' : Perm (ids store'.items) (entity_ids (pre ++ e ∷ rest))
        slots' = rw (ids-append k.store.items e.id (tp.copy t)) (
            Perm.trans (Perm.append_right (e.id ∷ []) k.slots) (
              subst (λ l. Perm l (entity_ids (pre ++ e ∷ rest)))
                (map-append (λ x. x.id) (pre ++ rest) (e ∷ []))
                (Perm.map (λ x. x.id) (Perm.symm moved))))

    -- The last entity `w` of a full buffer goes.
    place_last :
        (w : Entity W) (front : List (Entity W))
        → n_limit d ≤ length pre + length rest
        → get_elem? (pre ++ rest) (n_limit d - 1) ≡ some w
        → front ≡ take (n_limit d - length pre - 1) rest
        → rest ≡ front ++ w ∷ []
        → Placed (place d tp e t pre rest box)
    unfolding place
    place_last w front full at cut split =
        let (store', setting, limit', p) = set_abstract-replace tp.copy e.id w.id t k.store slot in
        (
          front,
          some store',
          rw (le→ltb_false _ _ full, at, k.stored, setting, cut),
          record {
            top =
                IsTop-replace (less d) o k.top (rw length-append full) ps e w (pre ++ e ∷ front) pe
                  w_kept worst (after w w_late) exchange;
            sorted =
                between_IsSorted front (IsSorted-left (less d) front (w ∷ []) rest_IsSorted)
                  (λ x m. after x (front_late x m))
                  (λ x mx y my. IsSorted-apart (less d) pre rest k.sorted x mx y (front_late y my));
            store = store';
            stored = refl;
            store_limit = limit' ∙ k.store_limit;
            slots = Perm.cons_inv (
                Perm.trans p (
                  Perm.trans (Perm.cons e.id k.slots) (Perm.symm (Perm.map (λ x. x.id) exchange))));
          },
        )
      where
        w_late : Mem w rest
        w_late = subst (Mem w) (sym split) (mem-append_right front mem-cons_self)

        front_late : (x : Entity W) → Mem x front → Mem x rest
        front_late x m = subst (Mem x) (sym split) (mem-append_left (w ∷ []) m)

        w_kept : Mem w (pre ++ rest)
        w_kept = mem-append_right pre w_late

        slot : Mem w.id (ids k.store.items)
        slot = (Perm.mem_iff k.slots).1 (mem-map_of_mem (λ x. x.id) w_kept)

        rest_IsSorted : IsSorted (less d) (front ++ w ∷ [])
        rest_IsSorted = subst (IsSorted (less d)) split (IsSorted-right (less d) pre rest k.sorted)

        whole : pre ++ rest ≡ (pre ++ front) ++ w ∷ []
        whole = ap (◌++◌ pre) split ∙ sym (append_assoc pre front (w ∷ []))

        worst : All (λ x. NotAfter (less d) x w) (pre ++ rest)
        worst x m =
            All-snoc w (pre ++ front) (λ y. NotAfter-prop (less d) y w)
              (λ y my.
                IsSorted-apart (less d) (pre ++ front) (w ∷ [])
                  (subst (IsSorted (less d)) whole k.sorted) y my w mem-cons_self)
              (irreflexive (less d) P o w (kept_ps w w_kept)) x (subst (Mem x) whole m)

        exchange : Perm (w ∷ (pre ++ e ∷ front)) (e ∷ (pre ++ rest))
        exchange = Perm.trans (Perm.cons w (perm_middle pre front)) (
            Perm.trans (Perm.swap e w (pre ++ front)) (
              Perm.cons e (
                subst (Perm (w ∷ (pre ++ front))) (sym whole)
                  (Perm.symm (perm_append_singleton w (pre ++ front))))))

    -- Short of the limit, `e` is placed.
    pub place-Placed : length pre ≢ n_limit d → Placed (place d tp e t pre rest box)
    place-Placed short = elim (Bool-cases (ltb (length pre + length rest) (n_limit d))) [
      | inl room ↦ place_room (ltb→lt _ _ room)
      | inr no_room ↦
          let full = ltb_false→le _ _ no_room in
          let n = n_limit d - length pre - 1 in
          let (w, at, split) = split_last rest n (size full) in
          place_last w (take n rest) full (last full w at) refl split
    ]
      where
        bounded : length pre + length rest ≤ n_limit d
        bounded = omega (arith, k.top.count, length-append pre rest)

        size : n_limit d ≤ length pre + length rest → length rest ≡ suc (n_limit d - length pre - 1)
        size full = omega (arith, bounded)

        last :
            n_limit d ≤ length pre + length rest
            → (w : Entity W) → get_elem? rest (n_limit d - length pre - 1) ≡ some w
            → get_elem? (pre ++ rest) (n_limit d - 1) ≡ some w
        last full w at =
            ap (get_elem? (pre ++ rest)) (index full)
            ∙ get_elem?-append_right pre rest (n_limit d - length pre - 1)
            ∙ at
          where
            index :
                n_limit d ≤ length pre + length rest
                → n_limit d - 1 ≡ length pre + (n_limit d - length pre - 1)
            index full = omega (arith, bounded)
