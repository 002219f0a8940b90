-- ===== src/Service/Store/Opened.antt =====
-- StructoSearch::StructoSearch: the fields that an index was committed with, and those of the next service over it.
use palmira.Prelude.{
  ◌≡◌, refl, ap, ◌∙◌, inl, inr, true, false, Bool-cases, [], Option, none, some, if◌then◌else◌,
  Result, Result-cases, ok, err, Exception, ◌>>=◌,
}
use palmira.Service.Store.{Bytes, Entity, Index, Tools, State, commit, mappings_key}
use palmira.Service.Store.Laws.{IsStore}

-- The members of a service that is new, over an index with some fields.
abbrev pub opened_with : {S F : Type 0} → S → F → State S F
opened_with index f = record {
  index = index;
  fields = f;
  modified = false;
  ref_count = 0;
  alive = true;
}

-- `load_fields` stands for the reading of an array of maps and LoadFields, `join_fields` for JoinFields.
module _ {S C F : Type 0} (ix : Index S C) (load_fields : Bytes → Option F)
    (join_fields : F → F → F) where
  unfoldable pub fields_of : Option Bytes → F → Result F
  fields_of none fm = ok fm
  fields_of (some x) fm = elim (load_fields x) [
    | none ↦ err (Exception.invalid_argument "failed to deserialize fields configuration")
    | some f ↦ ok (join_fields f fm)
  ]

  -- The fields of a service over an index, by those that it is given.
  unfoldable pub opened_fields : S → F → Result F
  unfolding fields_of
  opened_fields index fm = elim (ix.get_entity index mappings_key) [
    | none ↦ ok fm
    | some e ↦ fields_of e.extra fm
  ]

  -- StructoSearch::StructoSearch
  unfoldable pub open_service : S → F → Result (State S F)
  unfolding opened_fields
  open_service index fm = opened_fields index fm >>= λ f. ok (opened_with index f)

  module _ {M X : Type 0} (tools : Tools M X F C) (law : IsStore ix)
      (loads : (f : F) → load_fields (tools.save_fields f) ≡ some f) where
    saved :
        (e : Entity) (s : State S F) (fm : F)
        → e.extra ≡ some (tools.save_fields s.fields)
        → fields_of e.extra fm ≡ ok (join_fields s.fields fm)
    unfolding fields_of
    saved e s fm h = rw (h, loads s.fields, fields_of) refl

    opened-same :
        (i j : S) (fm : F)
        → ix.get_entity i mappings_key ≡ ix.get_entity j mappings_key
        → opened_fields i fm ≡ opened_fields j fm
    unfolding opened_fields
    opened-same i j fm h = rw (h, opened_fields) refl

    opened-put :
        (i : S) (d : Entity) (s : State S F) (fm : F)
        → ix.get_entity i mappings_key ≡ some d
        → d.extra ≡ some (tools.save_fields s.fields)
        → opened_fields i fm ≡ ok (join_fields s.fields fm)
    unfolding opened_fields
    opened-put i d s fm g x = rw (g, opened_fields) (saved d s fm x)

    opened_fields-commit :
        (s : State S F) (fm : F)
        → (commit ix tools s).1 ≡ ok tt
        → opened_fields (commit ix tools s).0.index fm
          ≡ (if s.modified then ok (join_fields s.fields fm) else opened_fields s.index fm)
    unfolding commit
    opened_fields-commit s fm h = elim (Bool-cases s.modified) [
      | inr m ↦
          rw (m, commit)
            (opened-same (ix.commit s.index) s.index fm (law.commit_same s.index mappings_key))
      | inl m ↦
          elim (Result-cases
            (ix.set_entity s.index mappings_key none (tools.save_fields s.fields) []).1) [
              | inr (e, k) ↦ absurd (cc (rw (m, k, commit) at h))
              | inl (d, k) ↦
                  let (at, extra, packed, id) = law.set_done s.index mappings_key none _ [] d k in
                  rw (m, k, commit)
                    (opened-put _ d s fm (law.commit_same _ mappings_key ∙ at) extra)
            ]
    ]

    -- A service that is opened after a Commit that did not throw has the fields of the one that was committed, joined with those
    -- it is given, if that one had changed the index; if it had not, its fields are those of a service that is opened before.
    pub open_service-commit :
        (s : State S F) (fm : F)
        → (commit ix tools s).1 ≡ ok tt
        → open_service (commit ix tools s).0.index fm ≡ (
            (if s.modified then ok (join_fields s.fields fm) else opened_fields s.index fm) >>= λ f.
            ok (opened_with (commit ix tools s).0.index f))
    unfolding open_service
    open_service-commit s fm h =
        ap (λ r. r >>= λ f. ok (opened_with (commit ix tools s).0.index f))
          (opened_fields-commit s fm h)
