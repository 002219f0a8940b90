-- ===== src/Service/Store/Laws.antt =====
-- The service as a store of documents: what each operation does to what the index holds.
use palmira.Prelude.{
  ◌⊎◌, Result-cases, ◌≡◌, ◌≢◌, refl, ◌∙◌, inl, inr, Bool, true, false, List, [], ◌∷◌, Option, none,
  some, ◌==◌, Result, ok, err, Exception,
}
use palmira.Service.Store.{
  Bytes, Entity, Index, Tools, State, Report, InsertArgs, UpdateArgs, RemoveArgs, caught,
  caught_insert, dump_metadata, updated, stored, prepare, insert, update, remove,
}

-- What structo's index documents: an operation that throws or finds nothing changes nothing; the
-- others change the one document that they name.
pub record IsStore {S C : Type 0} (ix : Index S C) : Type 0 where
  pub set_thrown :
      (s : S) (i : Bytes) (c : Option C) (x b : Bytes) (e : Exception)
      → (ix.set_entity s i c x b).1 ≡ err e
      → (j : Bytes) → ix.get_entity (ix.set_entity s i c x b).0 j ≡ ix.get_entity s j
  pub set_done :
      (s : S) (i : Bytes) (c : Option C) (x b : Bytes) (d : Entity)
      → (ix.set_entity s i c x b).1 ≡ ok d
      → (ix.get_entity (ix.set_entity s i c x b).0 i ≡ some d)
        × (d.extra ≡ some x)
        × (d.bundle ≡ some b)
        × (d.id ≡ i)
  pub set_other :
      (s : S) (i : Bytes) (c : Option C) (x b j : Bytes)
      → j ≢ i
      → ix.get_entity (ix.set_entity s i c x b).0 j ≡ ix.get_entity s j
  pub extras_thrown :
      (s : S) (i x : Bytes) (e : Exception)
      → (ix.set_extras s i x).1 ≡ err e
      → (j : Bytes) → ix.get_entity (ix.set_extras s i x).0 j ≡ ix.get_entity s j
  pub extras_absent :
      (s : S) (i x : Bytes)
      → (ix.set_extras s i x).1 ≡ ok none
      → (j : Bytes) → ix.get_entity (ix.set_extras s i x).0 j ≡ ix.get_entity s j
  pub extras_done :
      (s : S) (i x : Bytes) (d : Entity)
      → (ix.set_extras s i x).1 ≡ ok (some d)
      → (ix.get_entity (ix.set_extras s i x).0 i ≡ some d) × (d.extra ≡ some x) × (d.id ≡ i)
  pub commit_same : (s : S) (j : Bytes) → ix.get_entity (ix.commit s) j ≡ ix.get_entity s j
  pub del_thrown :
      (s : S) (i : Bytes) (e : Exception)
      → (ix.del_entity s i).1 ≡ err e
      → (j : Bytes) → ix.get_entity (ix.del_entity s i).0 j ≡ ix.get_entity s j
  pub del_done :
      (s : S) (i : Bytes)
      → (ix.del_entity s i).1 ≡ ok true
      → ix.get_entity (ix.del_entity s i).0 i ≡ none
  pub del_absent :
      (s : S) (i : Bytes)
      → (ix.del_entity s i).1 ≡ ok false
      → (j : Bytes) → ix.get_entity (ix.del_entity s i).0 j ≡ ix.get_entity s j
  pub extras_other :
      (s : S) (i x j : Bytes) → j ≢ i → ix.get_entity (ix.set_extras s i x).0 j ≡ ix.get_entity s j
  pub del_other :
      (s : S) (i j : Bytes) → j ≢ i → ix.get_entity (ix.del_entity s i).0 j ≡ ix.get_entity s j

module _ {M : Type 0} where
  -- The report of a change: status 0.
  abbrev pub succeeded : Result (Report M) → Bool
  succeeded (ok r) = r.code == 0
  succeeded (err e) = false

pub caught-failed : (M : Type 0) (e : Exception) → succeeded (caught {M = M} (err e)) ≡ false
unfolding caught
caught-failed M (Exception.invalid_argument what) = refl
caught-failed M (Exception.parse_error what) = refl
caught-failed M (Exception.logic_error what) = refl
caught-failed M (Exception.runtime_error what) = refl
caught-failed M (Exception.range_error what) = refl
caught-failed M (Exception.bad_function_call what) = refl
caught-failed M Exception.out_of_fuel = refl
caught-failed M Exception.undefined = refl

pub caught_insert-failed :
    (M : Type 0) (e : Exception) → succeeded (caught_insert {M = M} (err e)) ≡ false
unfolding caught_insert caught
caught_insert-failed M (Exception.invalid_argument what) = refl
caught_insert-failed M (Exception.parse_error what) = refl
caught_insert-failed M (Exception.logic_error what) = refl
caught_insert-failed M (Exception.runtime_error what) = refl
caught_insert-failed M (Exception.range_error what) = refl
caught_insert-failed M (Exception.bad_function_call what) = refl
caught_insert-failed M Exception.out_of_fuel = refl
caught_insert-failed M Exception.undefined = refl

-- A request that changes the index.
pub data Request (M X : Type 0) : Type 0 where
  insert_request : InsertArgs M X → Request M X
  update_request : UpdateArgs M → Request M X
  remove_request : RemoveArgs → Request M X

abbrev pub target : {M X : Type 0} → Request M X → Bytes
target (insert_request args) = args.object_id
target (update_request args) = args.object_id
target (remove_request args) = args.object_id

module _ {S M X F C : Type 0} (ix : Index S C) (tools : Tools M X F C) where
  abbrev pub handle : Request M X → State S F → State S F × Result (Report M)
  handle (insert_request args) s = insert ix tools args s
  handle (update_request args) s = update ix tools args s
  handle (remove_request args) s = remove ix tools args s

  -- The index holds the same documents.
  abbrev pub Same : State S F → State S F → Type 0
  Same s s' = (j : Bytes) → ix.get_entity s'.index j ≡ ix.get_entity s.index j

  -- A request on document `i` has changed it alone and marked the index as modified, or it has changed
  -- nothing.
  abbrev pub Outcome : Bytes → State S F → State S F → Result (Report M) → Type 0
  Outcome i s s' r =
      ((succeeded r ≡ true)
        × (s'.modified ≡ true)
        × ((j : Bytes) → j ≢ i → ix.get_entity s'.index j ≡ ix.get_entity s.index j))
      ⊎ ((succeeded r ≡ false) × (s'.modified ≡ s.modified) × Same s s')

  module _ (law : IsStore ix) where
    insert-Outcome :
        (args : InsertArgs M X) (s : State S F)
        → Outcome args.object_id s (insert ix tools args s).0 (insert ix tools args s).1
    unfolding insert stored
    insert-Outcome args s = elim (Result-cases (prepare ix tools s args)) [
      | inr (e, h) ↦ rw (h, insert) (inr (caught_insert-failed M e, refl, λ j. refl))
      | inl ((bundle, contents), h) ↦
          elim (Result-cases
            (ix.set_entity s.index args.object_id (some contents)
              (dump_metadata ix tools args.metadata).1 bundle).1) [
                | inr (e, k) ↦
                    rw (h, k, insert, stored)
                      (inr (caught_insert-failed M e, refl, law.set_thrown s.index _ _ _ _ e k))
                | inl (d, k) ↦
                    rw (h, k, insert, stored)
                      (inl (done d, refl, λ j other. law.set_other s.index _ _ _ _ j other))
              ]
    ]
      where
        done : (d : Entity) → succeeded (caught_insert (ok (updated ix tools d))) ≡ true
        done d = refl

    update-Outcome :
        (args : UpdateArgs M) (s : State S F)
        → Outcome args.object_id s (update ix tools args s).0 (update ix tools args s).1
    unfolding update updated
    update-Outcome args s =
        elim (Result-cases
          (ix.set_extras s.index args.object_id (dump_metadata ix tools args.metadata).1).1) [
            | inr (e, k) ↦
                rw (k, update) (inr (caught-failed M e, refl, law.extras_thrown s.index _ _ e k))
            | inl (none, k) ↦ rw (k, update) (inr (refl, refl, law.extras_absent s.index _ _ k))
            | inl (some d, k) ↦
                rw (k, update) (inl (refl, refl, λ j other. law.extras_other s.index _ _ j other))
          ]

    remove-Outcome :
        (args : RemoveArgs) (s : State S F)
        → Outcome args.object_id s (remove ix tools args s).0 (remove ix tools args s).1
    unfolding remove
    remove-Outcome args s = elim (Result-cases (ix.del_entity s.index args.object_id).1) [
      | inr (e, k) ↦ rw (k, remove) (inr (caught-failed M e, refl, law.del_thrown s.index _ e k))
      | inl (false, k) ↦ rw (k, remove) (inr (refl, refl, law.del_absent s.index _ k))
      | inl (true, k) ↦
          rw (k, remove) (inl (refl, refl, λ j other. law.del_other s.index _ j other))
    ]

    -- A request on a document ends in one of two ways: with status 0, the index marked as modified and
    -- no other document changed; or with another status or an exception, nothing changed at all and
    -- the mark left as it was.
    pub handle-Outcome :
        (q : Request M X) (s : State S F) → Outcome (target q) s (handle q s).0 (handle q s).1
    handle-Outcome (insert_request args) s = insert-Outcome args s
    handle-Outcome (update_request args) s = update-Outcome args s
    handle-Outcome (remove_request args) s = remove-Outcome args s

    -- Requests one after another.
    abbrev pub handle_all : List (Request M X) → State S F → State S F
    handle_all [] s = s
    handle_all (q ∷ qs) s = handle_all qs (handle q s).0

    marked :
        (qs : List (Request M X)) (s : State S F)
        → s.modified ≡ true
        → (handle_all qs s).modified ≡ true
    marked [] s h = h
    marked (q ∷ qs) s h = marked qs (handle q s).0 (kept (handle-Outcome q s))
      where
        kept : Outcome (target q) s (handle q s).0 (handle q s).1 → (handle q s).0.modified ≡ true
        kept (inl (done, m, other)) = m
        kept (inr (failed, m, same)) = m ∙ h

    -- No change goes unmarked: if after any requests the index is not marked as modified, then it
    -- holds the same documents as before them.
    pub modified-Same :
        (qs : List (Request M X)) (s : State S F)
        → (handle_all qs s).modified ≡ false
        → Same s (handle_all qs s)
    modified-Same [] s h j = refl
    modified-Same (q ∷ qs) s h j = one (handle-Outcome q s) (modified-Same qs (handle q s).0 h j)
      where
        one :
            Outcome (target q) s (handle q s).0 (handle q s).1
            → ix.get_entity (handle_all qs (handle q s).0).index j
              ≡ ix.get_entity (handle q s).0.index j
            → ix.get_entity (handle_all qs (handle q s).0).index j ≡ ix.get_entity s.index j
        one (inl (done, m, other)) rest = absurd (cc (marked qs (handle q s).0 m, h))
        one (inr (failed, m, same)) rest = rest ∙ same j
