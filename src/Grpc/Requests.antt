-- ===== src/Grpc/Requests.antt =====
-- src/network/grpc/messages.cpp: requests and reports to messages of the protocol, and back. The
-- version and the condition of a request have no place in the messages.
pub mod Trip
use palmira.Prelude.{ℕ, Bool, List, [], ◌∷◌, Option, none, some, Result, ok, err, Exception, ◌>>=◌}
use palmira.Prelude.Int.{ℤ}
use palmira.Values.{Bytes, Wide, Zmap, no_entry, entry, Metadata}
use palmira.Grpc.Messages.{to_metadata, to_zmap}

-- palmira::UpdateArgs, and grpcttp::UpdateArgs; those of a removal have only the identifier.
pub record UpdateArgs : Type 0 where
  pub object_id : Bytes
  pub metadata : Zmap

pub record UpdateMessage : Type 0 where
  pub objectid : Bytes
  pub metadata : Option Metadata

-- palmira::UpdateReport, and grpcttp::UpdateReport.
pub record UpdateReport : Type 0 where
  pub status : Option (ℤ × Bytes)
  pub metadata : Option Zmap

pub record ReportMessage : Type 0 where
  pub status : Option (ℤ × Bytes)
  pub metadata : Option Metadata

-- `objectId not defined`
unfoldable pub check_id : {A : Type 0} → Bytes → Result A → Result A
check_id [] next = err (Exception.invalid_argument "objectId not defined")
check_id (b ∷ bs) next = next

-- Convert( grpcttp::RemoveArgs&, const palmira::RemoveArgs& ), and Convert( palmira::RemoveArgs&, ... )
unfoldable pub convert_id : Bytes → Result Bytes
unfolding check_id
convert_id id = check_id id (ok id)

-- `if ( src.has_metadata() ) Convert( out.metadata, src.metadata() );`
unfoldable pub read_metadata : Option Metadata → Result Zmap
read_metadata none = ok no_entry
read_metadata (some d) = to_zmap d

-- Convert( palmira::UpdateArgs&, const grpcttp::UpdateArgs& )
unfoldable pub from_update : UpdateMessage → Result UpdateArgs
unfolding check_id read_metadata
from_update src = read_metadata src.metadata >>= λ m.
    check_id src.objectid (ok (record { object_id = src.objectid; metadata = m }))

module _ (to_utf8 : Wide → Bytes) (float_to_int double_to_int : ℕ → ℤ) where
  -- `if ( !src.metadata.empty() ) Convert( *out.mutable_metadata(), src.metadata );`
  unfoldable pub write_metadata : Zmap → Result (Option Metadata)
  write_metadata no_entry = ok none
  write_metadata (entry k v m) =
      to_metadata to_utf8 float_to_int double_to_int (entry k v m) >>= λ d. ok (some d)

  -- Convert( grpcttp::UpdateArgs&, const palmira::UpdateArgs& )
  unfoldable pub to_update : UpdateArgs → Result UpdateMessage
  unfolding check_id write_metadata
  to_update src =
      check_id src.object_id (
        write_metadata src.metadata >>= λ d. ok (record { objectid = src.object_id; metadata = d }))

  -- Convert( grpcttp::UpdateReport&, const mtc::zmap& ): a status that is not there is read as 0 and
  -- the empty string.
  unfoldable pub to_report : ℤ → UpdateReport → Result ReportMessage
  to_report nought src =
      let status : ℤ × Bytes = elim src.status [ none ↦ (nought, []) | some st ↦ st ] in
      elim src.metadata [
        | none ↦ ok (record { status = some status; metadata = none })
        | some m ↦ to_metadata to_utf8 float_to_int double_to_int m >>= λ d.
            ok (record { status = some status; metadata = some d })
      ]

-- Convert( mtc::zmap&, grpcttp::UpdateReport& )
unfoldable pub from_report : ReportMessage → Result UpdateReport
from_report src = elim src.metadata [
  | none ↦ ok (record { status = src.status; metadata = none })
  | some d ↦ to_zmap d >>= λ m. ok (record { status = src.status; metadata = some m })
]
