-- ===== src/Service/Store/History/Refines.antt =====
-- The service refines the map.
use palmira.Prelude.{
  ◌≡◌, ◌≢◌, refl, sym, ap, subst, ◌∙◌, inl, inr, Bool, Bool-cases, true, false, List, [], ◌∷◌,
  Option, none, some, Result-cases,
}
use palmira.Document.{same_bytes}
use palmira.Document.Same.{same_bytes_eq, same_bytes-differ}
use palmira.Service.Store.{Bytes, Entity, Index, Tools, State, commit, mappings_key}
use palmira.Service.Store.Laws.{
  IsStore, Request, target, succeeded, handle, handle-Outcome, Outcome,
}
use palmira.Service.Store.History.{
  put, Event, request, commit_all, extra_of, new_metadata, after, wrote, occur, run, successes,
  after_all, metadata_of, IsKeyed,
}
use palmira.Service.Store.History.Left.{Left, handle-Left, handle-fields, commit-fields}

module _ {S M X F C : Type 0} (ix : Index S C) (tools : Tools M X F C) where
  module _ (law : IsStore ix) where
    -- Where an event writes, and what it leaves there.
    abbrev place : Event M X → Bytes
    place (request q) = target q
    place commit_all = mappings_key

    abbrev value : F → Event M X → Option (Option Bytes)
    value fields (request q) = new_metadata ix tools q
    value fields commit_all = some (some (tools.save_fields fields))

    abbrev Effect : Event M X → State S F → State S F → Bool → Type 0
    Effect e s s' true =
        Left ix tools (place e) (value s.fields e) s'
        × ((j : Bytes) → j ≢ place e → ix.get_entity s'.index j ≡ ix.get_entity s.index j)
    Effect e s s' false = (j : Bytes) → ix.get_entity s'.index j ≡ ix.get_entity s.index j

    handle-Effect :
        (q : Request M X) (s : State S F)
        → Outcome ix tools (target q) s (handle ix tools q s).0 (handle ix tools q s).1
        → Effect (request q) s (handle ix tools q s).0 (succeeded (handle ix tools q s).1)
    handle-Effect q s (inl (done, marked, other)) =
        subst (Effect (request q) s (handle ix tools q s).0) (sym done)
          (handle-Left ix tools law q s done, other)
    handle-Effect q s (inr (failed, mark, same)) =
        subst (Effect (request q) s (handle ix tools q s).0) (sym failed) same

    commit-Effect :
        (s : State S F)
        → Effect commit_all s
            (commit ix tools s).0
            (wrote ix tools s.modified (commit ix tools s).1)
    unfolding commit
    commit-Effect s = elim (Bool-cases s.modified) [
      | inr h ↦ rw (h, commit) (λ j. law.commit_same s.index j)
      | inl h ↦
          elim (Result-cases
            (ix.set_entity s.index mappings_key none (tools.save_fields s.fields) []).1) [
              | inr (e, k) ↦ rw (h, k, commit) (law.set_thrown s.index _ _ _ _ e k)
              | inl (d, k) ↦
                  let (at, extra, packed, id) = law.set_done s.index mappings_key none _ [] d k in
                  rw (h, k, commit)
                    (
                      (d, law.commit_same _ mappings_key ∙ at, extra, id),
                      λ j other. law.commit_same _ j ∙ law.set_other s.index _ _ _ _ j other,
                    )
            ]
    ]

    occur-Effect :
        (e : Event M X) (s : State S F) → Effect e s (occur ix tools e s).0 (occur ix tools e s).1
    occur-Effect (request q) s = handle-Effect q s (handle-Outcome ix tools law q s)
    occur-Effect commit_all s = commit-Effect s

    occur-fields : (e : Event M X) (s : State S F) → (occur ix tools e s).0.fields ≡ s.fields
    occur-fields (request q) s = handle-fields ix tools law q s
    occur-fields commit_all s = commit-fields ix tools law s

    Left-extra :
        (i : Bytes) (v : Option (Option Bytes)) (s : State S F)
        → Left ix tools i v s
        → metadata_of ix tools s i ≡ v
    Left-extra i none s h = ap extra_of h
    Left-extra i (some x) s (d, at, extra, id) = ap extra_of at ∙ ap some extra

    Left-id :
        (i : Bytes) (v : Option (Option Bytes)) (s : State S F)
        → Left ix tools i v s
        → (d : Entity) → ix.get_entity s.index i ≡ some d
        → d.id ≡ i
    Left-id i none s h d g = absurd (cc (h, g))
    Left-id i (some x) s (e, at, extra, id) d g = cc (at, g, id)

    written-put :
        (i : Bytes) (v : Option (Option Bytes)) (s s' : State S F)
        → Left ix tools i v s'
        → ((j : Bytes) → j ≢ i → ix.get_entity s'.index j ≡ ix.get_entity s.index j)
        → (j : Bytes) → metadata_of ix tools s' j ≡ put i v (metadata_of ix tools s) j
    written-put i v s s' h other j = elim (Bool-cases (same_bytes j i)) [
      | inl b ↦ rw b (ap (metadata_of ix tools s') (same_bytes_eq j i b) ∙ Left-extra i v s' h)
      | inr b ↦ rw b (ap extra_of (other j (same_bytes-differ j i b)))
    ]

    written-IsKeyed :
        (i : Bytes) (v : Option (Option Bytes)) (s s' : State S F)
        → Left ix tools i v s'
        → ((j : Bytes) → j ≢ i → ix.get_entity s'.index j ≡ ix.get_entity s.index j)
        → IsKeyed ix tools s
        → IsKeyed ix tools s'
    written-IsKeyed i v s s' h other keyed j d g = elim (Bool-cases (same_bytes j i)) [
      | inl b ↦
          let same = same_bytes_eq j i b in
          Left-id i v s' h d (ap (ix.get_entity s'.index) (sym same) ∙ g) ∙ sym same
      | inr b ↦ keyed j d (sym (other j (same_bytes-differ j i b)) ∙ g)
    ]

    Effect-after :
        (e : Event M X) (s s' : State S F) (o : Bool)
        → Effect e s s' o
        → (j : Bytes)
        → metadata_of ix tools s' j ≡ after ix tools s.fields e o (metadata_of ix tools s) j
    Effect-after (request q) s s' true (h, other) =
        written-put (target q) (new_metadata ix tools q) s s' h other
    Effect-after commit_all s s' true (h, other) =
        written-put mappings_key (some (some (tools.save_fields s.fields))) s s' h other
    Effect-after (request q) s s' false same = λ j. ap extra_of (same j)
    Effect-after commit_all s s' false same = λ j. ap extra_of (same j)

    Effect-IsKeyed :
        (e : Event M X) (s s' : State S F) (o : Bool)
        → Effect e s s' o
        → IsKeyed ix tools s
        → IsKeyed ix tools s'
    Effect-IsKeyed e s s' true (h, other) keyed =
        written-IsKeyed (place e) (value s.fields e) s s' h other keyed
    Effect-IsKeyed e s s' false same keyed = λ j d g. keyed j d (sym (same j) ∙ g)

    pub run-IsKeyed :
        (es : List (Event M X)) (s : State S F)
        → IsKeyed ix tools s
        → IsKeyed ix tools (run ix tools es s)
    run-IsKeyed [] s keyed = keyed
    run-IsKeyed (e ∷ es) s keyed =
        run-IsKeyed es (occur ix tools e s).0 (
          Effect-IsKeyed e s (occur ix tools e s).0 (occur ix tools e s).1 (occur-Effect e s) keyed)

    pub metadata_of-run :
        (es : List (Event M X)) (s : State S F)
        → metadata_of ix tools (run ix tools es s)
          ≡ after_all ix tools s.fields es (successes ix tools es s) (metadata_of ix tools s)
    metadata_of-run [] s = refl
    metadata_of-run (e ∷ es) s =
        metadata_of-run es (occur ix tools e s).0
        ∙ ap
            (λ f.
              after_all ix tools f es (successes ix tools es (occur ix tools e s).0)
                (metadata_of ix tools (occur ix tools e s).0))
            (occur-fields e s)
        ∙ ap (after_all ix tools s.fields es (successes ix tools es (occur ix tools e s).0)) (λ i j.
          Effect-after e s (occur ix tools e s).0 (occur ix tools e s).1 (occur-Effect e s) j i)
