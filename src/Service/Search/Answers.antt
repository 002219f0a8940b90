-- ===== src/Service/Search/Answers.antt =====
-- A search by identifier, against the service as a map.
use palmira.Prelude.{ℕ, ◌≡◌, refl, ap, ◌∙◌, inl, inr, List, ◌∷◌, Option, none, some, Option-cases}
use palmira.Service.Store.{Bytes, Index, Tools, State, enoent}
use palmira.Service.Store.Laws.{IsStore}
use palmira.Service.Store.History.{Event, run, successes, after_all, metadata_of, IsKeyed}
use palmira.Service.Store.History.Refines.{run-IsKeyed, metadata_of-run}
use palmira.Service.Search.{Found, SearchReport, IdValue, search_by_id, get_string}

-- What is said of an identifier by whether there is anything under it.
abbrev pub answer : {R : Type 0} → Bytes → Option (Option Bytes) → SearchReport R
answer i none = record { code = enoent; info = "document not found"; found = Found.nothing }
answer i (some x) = record { code = 0; info = "OK"; found = Found.one_document i }

module _ {S M X F C : Type 0} (R : Type 0) (ix : Index S C) (tools : Tools M X F C)
    (law : IsStore ix) (to_utf8 : List ℕ → Bytes) where
  search_by_id-answer :
      (b : ℕ) (bs : Bytes) (s : State S F)
      → IsKeyed ix tools s
      → search_by_id {R = R} ix to_utf8 (IdValue.charstr (b ∷ bs)) s
        ≡ answer (b ∷ bs) (metadata_of ix tools s (b ∷ bs))
  unfolding search_by_id get_string
  search_by_id-answer b bs s keyed = elim (Option-cases (ix.get_entity s.index (b ∷ bs))) [
    | inl g ↦ rw (g, search_by_id) refl
    | inr (d, g) ↦ rw (g, search_by_id, keyed (b ∷ bs) d g) refl
  ]

  -- Whatever requests and commits come, and whether they succeed or not, a search by an identifier that is not empty
  -- answers from the map from identifiers to metadata that results if each insertion and update that succeeds puts its
  -- metadata there, each removal takes the entry away, each Commit that writes puts the fields under its key, and what
  -- fails changes nothing; of an index in which each document stands under its identifier.
  pub search_by_id-run :
      (es : List (Event M X)) (s : State S F) (b : ℕ) (bs : Bytes)
      → IsKeyed ix tools s
      → (metadata_of ix tools (run ix tools es s)
          ≡ after_all ix tools s.fields es (successes ix tools es s) (metadata_of ix tools s))
        × (search_by_id {R = R} ix to_utf8 (IdValue.charstr (b ∷ bs)) (run ix tools es s)
            ≡ answer (b ∷ bs) (
                after_all ix tools s.fields es
                  (successes ix tools es s)
                  (metadata_of ix tools s)
                  (b ∷ bs)))
  search_by_id-run es s b bs keyed = (
    metadata_of-run ix tools law es s,
    search_by_id-answer b bs (run ix tools es s) (run-IsKeyed ix tools law es s keyed)
        ∙ ap (λ m. answer (b ∷ bs) (m (b ∷ bs))) (metadata_of-run ix tools law es s),
  )
