-- ===== src/Service/Search/Page.antt =====
-- A search by identifier, after the requests that change the document.
use palmira.Prelude.{
  ◌≡◌, sym, subst, inl, inr, true, false, List, ◌∷◌, none, some, ok, err, Exception, Result-cases,
  ℕ,
}
use palmira.Service.Store.{
  Bytes, Entity, Index, Tools, State, InsertArgs, RemoveArgs, enoent, prepare, insert, remove,
  stored, caught, caught_insert, dump_metadata,
}
use palmira.Service.Store.Laws.{IsStore, succeeded, caught-failed, caught_insert-failed}
use palmira.Service.Search.{Found, IdValue, get_string, search_by_id}

module _ {S M X F C : Type 0} (R : Type 0) (ix : Index S C) (tools : Tools M X F C)
    (law : IsStore ix) (to_utf8 : List ℕ → Bytes) where
  abbrev FoundAt : State S F → Entity → Bytes → Type 0
  FoundAt s e i =
      ix.get_entity s.index i ≡ some e
      → e.id ≡ i
      → search_by_id {R = R} ix to_utf8 (IdValue.charstr i) s
        ≡ record { code = 0; info = "OK"; found = Found.one_document i }

  search_by_id-get :
      (i : Bytes) (b : ℕ) (bs : Bytes) (s : State S F) (e : Entity) → i ≡ b ∷ bs → FoundAt s e i
  unfolding search_by_id get_string
  search_by_id-get i b bs s e named =
      subst (FoundAt s e) (sym named) (λ g same. rw (g, same, search_by_id))

  abbrev AbsentAt : State S F → Bytes → Type 0
  AbsentAt s i =
      ix.get_entity s.index i ≡ none
      → search_by_id {R = R} ix to_utf8 (IdValue.charstr i) s
        ≡ record { code = enoent; info = "document not found"; found = Found.nothing }

  search_by_id-absent : (i : Bytes) (b : ℕ) (bs : Bytes) (s : State S F) → i ≡ b ∷ bs → AbsentAt s i
  unfolding search_by_id get_string
  search_by_id-absent i b bs s named = subst (AbsentAt s) (sym named) (λ g. rw (g, search_by_id))

  -- A document that has been inserted is found by its identifier, if that is not empty.
  search-insert :
      (args : InsertArgs M X) (s : State S F) (b : ℕ) (bs : Bytes)
      → args.object_id ≡ b ∷ bs
      → succeeded (insert ix tools args s).1 ≡ true
      → search_by_id {R = R} ix to_utf8 (IdValue.charstr args.object_id) (insert ix tools args s).0
        ≡ record { code = 0; info = "OK"; found = Found.one_document args.object_id }
  unfolding insert stored
  search-insert args s b bs named h = elim (Result-cases (prepare ix tools s args)) [
    | inr (e, k) ↦ absurd (cc (caught_insert-failed M e, unprepared e k, h))
    | inl ((bundle, c), k) ↦
        elim (Result-cases
          (ix.set_entity s.index args.object_id (some c) (dump_metadata ix tools args.metadata).1
            bundle).1) [
              | inr (e, m) ↦ absurd (cc (caught_insert-failed M e, refused bundle c e k m, h))
              | inl (d, m) ↦
                  let (at, extra, packed, id) =
                    law.set_done s.index args.object_id (some c) _ bundle d m in
                  search_by_id-get args.object_id b bs _ d named (got bundle c d k m at) id
            ]
  ]
    where
      unprepared :
          (e : Exception)
          → prepare ix tools s args ≡ err e
          → succeeded (insert ix tools args s).1 ≡ succeeded (caught_insert {M = M} (err e))
      unprepared e k = rw (k, insert)

      refused :
          (bundle : Bytes) (c : C) (e : Exception)
          → prepare ix tools s args ≡ ok (bundle, c)
          → (ix.set_entity s.index args.object_id
              (some c)
              (dump_metadata ix tools args.metadata).1
              bundle).1
            ≡ err e
          → succeeded (insert ix tools args s).1 ≡ succeeded (caught_insert {M = M} (err e))
      refused bundle c e k m = rw (k, m, insert, stored)

      got :
          (bundle : Bytes) (c : C) (d : Entity)
          → prepare ix tools s args ≡ ok (bundle, c)
          → (ix.set_entity s.index args.object_id
              (some c)
              (dump_metadata ix tools args.metadata).1
              bundle).1
            ≡ ok d
          → ix.get_entity
              (ix.set_entity s.index args.object_id
                (some c)
                (dump_metadata ix tools args.metadata).1
                bundle).0
              args.object_id
            ≡ some d
          → ix.get_entity (insert ix tools args s).0.index args.object_id ≡ some d
      got bundle c d k m at = rw (k, m, insert, stored) at

  -- A document that has been removed is not found any more.
  search-remove :
      (args : RemoveArgs) (s : State S F) (b : ℕ) (bs : Bytes)
      → args.object_id ≡ b ∷ bs
      → succeeded (remove ix tools args s).1 ≡ true
      → search_by_id {R = R} ix to_utf8 (IdValue.charstr args.object_id) (remove ix tools args s).0
        ≡ record { code = enoent; info = "document not found"; found = Found.nothing }
  unfolding remove
  search-remove args s b bs named h = elim (Result-cases (ix.del_entity s.index args.object_id).1) [
    | inr (e, k) ↦ absurd (cc (caught-failed M e, thrown e k, h))
    | inl (false, k) ↦ absurd (cc (absent k, h))
    | inl (true, k) ↦
        search_by_id-absent args.object_id b bs _ named
          (gone k (law.del_done s.index args.object_id k))
  ]
    where
      thrown :
          (e : Exception)
          → (ix.del_entity s.index args.object_id).1 ≡ err e
          → succeeded (remove ix tools args s).1 ≡ succeeded (caught {M = M} (err e))
      thrown e k = rw (k, remove)

      absent :
          (ix.del_entity s.index args.object_id).1 ≡ ok false
          → succeeded (remove ix tools args s).1 ≡ false
      absent k = rw (k, remove)

      gone :
          (ix.del_entity s.index args.object_id).1 ≡ ok true
          → ix.get_entity (ix.del_entity s.index args.object_id).0 args.object_id ≡ none
          → ix.get_entity (remove ix tools args s).0.index args.object_id ≡ none
      gone k g = rw (k, remove) g
