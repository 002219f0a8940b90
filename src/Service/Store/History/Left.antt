-- ===== src/Service/Store/History/Left.antt =====
-- What an operation of the service leaves under its identifier.
use palmira.Prelude.{
  ◌≡◌, refl, inl, inr, Bool-cases, true, false, [], Option, none, some, Result-cases,
}
use palmira.Service.Store.{
  Bytes, Entity, Index, Tools, State, InsertArgs, UpdateArgs, RemoveArgs, dump_metadata, stored,
  prepare, insert, update, remove, commit, mappings_key,
}
use palmira.Service.Store.Laws.{
  IsStore, Request, insert_request, update_request, remove_request, target, succeeded,
  caught-failed, caught_insert-failed, handle,
}
use palmira.Service.Store.History.{new_metadata}

module _ {S M X F C : Type 0} (ix : Index S C) (tools : Tools M X F C) where
  -- What a change that succeeds leaves under its identifier.
  abbrev pub Left : Bytes → Option (Option Bytes) → State S F → Type 0
  Left i none s = ix.get_entity s.index i ≡ none
  Left i (some x) s = (d : Entity) × (ix.get_entity s.index i ≡ some d) × (d.extra ≡ x) × (d.id ≡ i)

  module _ (law : IsStore ix) where
    insert-Left :
        (args : InsertArgs M X) (s : State S F)
        → succeeded (insert ix tools args s).1 ≡ true
        → Left args.object_id
            (some (some (tools.serialize args.metadata)))
            (insert ix tools args s).0
    unfolding insert stored dump_metadata
    insert-Left args s h = elim (Result-cases (prepare ix tools s args)) [
      | inr (e, k) ↦ absurd (cc (caught_insert-failed M e, rw (k, insert) at h))
      | inl ((bundle, c), k) ↦
          elim (Result-cases
            (ix.set_entity s.index args.object_id (some c) (tools.serialize args.metadata)
              bundle).1) [
                | inr (e, m) ↦
                    absurd (cc (caught_insert-failed M e, rw (k, m, insert, stored) at h))
                | inl (d, m) ↦
                    let (at, extra, packed, id) =
                      law.set_done s.index args.object_id (some c) _ bundle d m in
                    rw (k, m, insert, stored) (d, at, extra, id)
              ]
    ]

    update-Left :
        (args : UpdateArgs M) (s : State S F)
        → succeeded (update ix tools args s).1 ≡ true
        → Left args.object_id
            (some (some (tools.serialize args.metadata)))
            (update ix tools args s).0
    unfolding update dump_metadata
    update-Left args s h =
        elim (Result-cases
          (ix.set_extras s.index args.object_id (tools.serialize args.metadata)).1) [
            | inr (e, k) ↦ absurd (cc (caught-failed M e, rw (k, update) at h))
            | inl (none, k) ↦ absurd (cc (rw (k, update) at h))
            | inl (some d, k) ↦
                let (at, extra, id) = law.extras_done s.index args.object_id _ d k in
                rw (k, update) (d, at, extra, id)
          ]

    remove-Left :
        (args : RemoveArgs) (s : State S F)
        → succeeded (remove ix tools args s).1 ≡ true
        → Left args.object_id none (remove ix tools args s).0
    unfolding remove
    remove-Left args s h = elim (Result-cases (ix.del_entity s.index args.object_id).1) [
      | inr (e, k) ↦ absurd (cc (caught-failed M e, rw (k, remove) at h))
      | inl (false, k) ↦ absurd (cc (rw (k, remove) at h))
      | inl (true, k) ↦ rw (k, remove) (law.del_done s.index args.object_id k)
    ]

    pub handle-Left :
        (q : Request M X) (s : State S F)
        → succeeded (handle ix tools q s).1 ≡ true
        → Left (target q) (new_metadata ix tools q) (handle ix tools q s).0
    handle-Left (insert_request args) s h = insert-Left args s h
    handle-Left (update_request args) s h = update-Left args s h
    handle-Left (remove_request args) s h = remove-Left args s h

    -- No operation changes the fields.
    pub handle-fields :
        (q : Request M X) (s : State S F) → (handle ix tools q s).0.fields ≡ s.fields
    unfolding insert update remove stored
    handle-fields (insert_request args) s = elim (Result-cases (prepare ix tools s args)) [
      | inr (e, k) ↦ rw (k, insert) refl
      | inl ((bundle, c), k) ↦
          elim (Result-cases
            (ix.set_entity s.index args.object_id (some c) (dump_metadata ix tools args.metadata).1
              bundle).1) [
                | inr (e, m) ↦ rw (k, m, insert, stored) refl
                | inl (d, m) ↦ rw (k, m, insert, stored) refl
              ]
    ]
    handle-fields (update_request args) s =
        elim (Result-cases
          (ix.set_extras s.index args.object_id (dump_metadata ix tools args.metadata).1).1) [
            | inr (e, k) ↦ rw (k, update) refl
            | inl (none, k) ↦ rw (k, update) refl
            | inl (some d, k) ↦ rw (k, update) refl
          ]
    handle-fields (remove_request args) s =
        elim (Result-cases (ix.del_entity s.index args.object_id).1) [
          | inr (e, k) ↦ rw (k, remove) refl
          | inl (false, k) ↦ rw (k, remove) refl
          | inl (true, k) ↦ rw (k, remove) refl
        ]

    pub commit-fields : (s : State S F) → (commit ix tools s).0.fields ≡ s.fields
    unfolding commit
    commit-fields s = elim (Bool-cases s.modified) [
      | inr h ↦ rw (h, commit) refl
      | inl h ↦
          elim (Result-cases
            (ix.set_entity s.index mappings_key none (tools.save_fields s.fields) []).1) [
              | inr (e, k) ↦ rw (h, k, commit) refl
              | inl (d, k) ↦ rw (h, k, commit) refl
            ]
    ]
