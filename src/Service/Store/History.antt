-- ===== src/Service/Store/History.antt =====
-- The service as a map from identifiers to metadata.
pub mod Left
pub mod Refines
use palmira.Prelude.{
  ◌≡◌, ◌≢◌, refl, sym, ap, subst, ◌∙◌, ◌⊎◌, inl, inr, Bool, Bool-cases, true, false, List, [], ◌∷◌,
  Option, none, some, ◌==◌, if◌then◌else◌, Result, Result-cases, ok, err, Exception,
}
use palmira.Document.{same_bytes}
use palmira.Document.Same.{same_bytes_self, same_bytes_eq, same_bytes-differ}
use palmira.Service.Store.{
  Bytes, Entity, Index, Tools, State, Report, InsertArgs, UpdateArgs, RemoveArgs, caught,
  caught_insert, dump_metadata, updated, stored, prepare, insert, update, remove, commit,
  mappings_key,
}
use palmira.Service.Store.Laws.{
  IsStore, Request, insert_request, update_request, remove_request, target, succeeded,
  caught-failed, caught_insert-failed, handle, handle-Outcome, Outcome,
}

-- What is there under an identifier: a document with its metadata, if it has any, or none.
abbrev pub Metadata : Type 0
Metadata = Bytes → Option (Option Bytes)

abbrev pub put : Bytes → Option (Option Bytes) → Metadata → Metadata
put i v m j = if same_bytes j i then v else m j

-- What may come: a request, or a Commit.
pub data Event (M X : Type 0) : Type 0 where
  request : Request M X → Event M X
  commit_all : Event M X

abbrev pub extra_of : Option Entity → Option (Option Bytes)
extra_of none = none
extra_of (some e) = some e.extra

module _ {S M X F C : Type 0} (ix : Index S C) (tools : Tools M X F C) where
  -- The metadata that a change which succeeds leaves under the identifier.
  abbrev pub new_metadata : Request M X → Option (Option Bytes)
  new_metadata (insert_request args) = some (some (tools.serialize args.metadata))
  new_metadata (update_request args) = some (some (tools.serialize args.metadata))
  new_metadata (remove_request args) = none

  -- What an event does to the map, by whether it succeeds. A Commit that writes the fields leaves them under the key of
  -- its own.
  abbrev pub after : (fields : F) → Event M X → Bool → Metadata → Metadata
  after fields (request q) true m = put (target q) (new_metadata q) m
  after fields commit_all true m = put mappings_key (some (some (tools.save_fields fields))) m
  after fields e false m = m

  -- The same of the service: the state after an event, and whether it has written anything.
  abbrev pub wrote : Bool → Result (Unit {0}) → Bool
  wrote modified (ok t) = modified
  wrote modified (err e) = false

  abbrev pub occur : Event M X → State S F → State S F × Bool
  occur (request q) s = ((handle ix tools q s).0, succeeded (handle ix tools q s).1)
  occur commit_all s = ((commit ix tools s).0, wrote s.modified (commit ix tools s).1)

  abbrev pub run : List (Event M X) → State S F → State S F
  run [] s = s
  run (e ∷ es) s = run es (occur e s).0

  abbrev pub successes : List (Event M X) → State S F → List Bool
  successes [] s = []
  successes (e ∷ es) s = (occur e s).1 ∷ successes es (occur e s).0

  abbrev pub after_all : (fields : F) → List (Event M X) → List Bool → Metadata → Metadata
  after_all fields (e ∷ es) (o ∷ os) m = after_all fields es os (after fields e o m)
  after_all fields es os m = m

  abbrev pub metadata_of : State S F → Metadata
  metadata_of s j = extra_of (ix.get_entity s.index j)

  -- Each document has the identifier that it stands under.
  abbrev pub IsKeyed : State S F → Type 0
  IsKeyed s = (j : Bytes) (d : Entity) → ix.get_entity s.index j ≡ some d → d.id ≡ j
