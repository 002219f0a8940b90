-- ===== src/Grpc/Calls.antt =====
-- src/network/grpc/server.cpp and client.cpp: a change of the index as a call over gRPC.
pub mod Over
pub mod Changes
use palmira.Prelude.{
  ℕ, Bool, true, false, [], Option, none, some, Result, ok, err, Exception, ◌>>=◌,
}
use palmira.Prelude.Int.{ℤ, pos}
use palmira.Values.{Bytes, bytes_of, Wide, Zmap, no_entry, Metadata}
use palmira.Grpc.Requests.{
  UpdateArgs, UpdateMessage, UpdateReport, ReportMessage, convert_id, to_update, from_update,
  to_report, from_report,
}
use palmira.Grpc.Texts.{Nodes, Codepages, InsertArgs, InsertMessage, to_insert, from_insert}

-- grpc::Status
pub data Status : Type 0 where
  status_ok : Status
  status_error : (code : ℤ) → (message : Bytes) → Status

-- grpc::Status::CANCELLED
abbrev pub cancelled : Status
cancelled = status_error (pos 1) []

-- palmira::UpdateReport( EFAULT, "unknown exception" )
abbrev pub unknown_exception : ℤ × Bytes
unknown_exception = (pos 14, bytes_of "unknown exception")

abbrev pub no_report : ReportMessage
no_report = record { status = none; metadata = none }

-- The client's Waiter::Done: the report that it keeps.
unfoldable pub done : Status → ReportMessage → Result UpdateReport
unfolding from_report
done status_ok respond = from_report respond
done (status_error code message) respond =
    ok (record { status = some (code, message); metadata = none })

-- Insert, Update and Remove of the client, with what the other side does of the message and the status
-- that the library tells.
unfoldable pub client_call :
    {A M : Type 0} (convert : A → Result M) (serve : M → Status × ReportMessage)
    → A
    → Result UpdateReport
unfolding done
client_call convert serve args =
    convert args >>= λ message. done (serve message).0 (serve message).1

module _ (to_utf8 : Wide → Bytes) (float_to_int double_to_int : ℕ → ℤ) (nought : ℤ)
    (left_behind : UpdateReport → Option Metadata) where
  -- What is put into `*respond`: the report of the service, or one of the exception that was thrown before or
  -- by the conversion, which may leave a part of the metadata behind.
  unfoldable pub respond : Result UpdateReport → ReportMessage
  unfolding to_report
  respond (err x) = record { status = some unknown_exception; metadata = none }
  respond (ok report) = elim (to_report to_utf8 float_to_int double_to_int nought report) [
    | ok message ↦ message
    | err x ↦ record { status = some unknown_exception; metadata = left_behind report }
  ]

  -- Server::GrpcServer::Change
  unfoldable pub change :
      {A M : Type 0} (convert : M → Result A) (call : A → Result UpdateReport)
      → (is_cancelled : Bool) → M
      → Status × ReportMessage
  unfolding respond
  change convert call true request = (cancelled, no_report)
  change convert call false request = (status_ok, respond (convert request >>= call))

  -- Insert, Update and Remove of the server.
  module _ (c : Codepages) (insert : InsertArgs → Result UpdateReport)
      (update : UpdateArgs → Result UpdateReport) (remove : Bytes → Result UpdateReport) where
    unfoldable pub serve_insert : (is_cancelled : Bool) → InsertMessage → Status × ReportMessage
    unfolding change from_insert
    serve_insert is_cancelled request = change (from_insert c) insert is_cancelled request

    unfoldable pub serve_update : (is_cancelled : Bool) → UpdateMessage → Status × ReportMessage
    unfolding change from_update
    serve_update is_cancelled request = change from_update update is_cancelled request

    unfoldable pub serve_remove : (is_cancelled : Bool) → Bytes → Status × ReportMessage
    unfolding change convert_id
    serve_remove is_cancelled request = change convert_id remove is_cancelled request

  -- Insert, Update and Remove of the client, Search of which gives a null pointer.
  module _ (c : Codepages) (get_length : Nodes → ℕ) where
    unfoldable pub client_insert :
        (InsertMessage → Status × ReportMessage) → InsertArgs → Result UpdateReport
    unfolding client_call to_insert
    client_insert serve args =
        client_call (to_insert c to_utf8 float_to_int double_to_int get_length) serve args

    unfoldable pub client_update :
        (UpdateMessage → Status × ReportMessage) → UpdateArgs → Result UpdateReport
    unfolding client_call to_update
    client_update serve args = client_call (to_update to_utf8 float_to_int double_to_int) serve args

    unfoldable pub client_remove : (Bytes → Status × ReportMessage) → Bytes → Result UpdateReport
    unfolding client_call convert_id
    client_remove serve args = client_call convert_id serve args

-- The client's Waiter::Wait: what it returns, and what is left in `zoutmap`, which is moved out.
unfoldable pub wait_report :
    (moved : UpdateReport) → (is_ready : Bool) → UpdateReport → UpdateReport × UpdateReport
wait_report moved true zoutmap = (zoutmap, moved)
wait_report moved false zoutmap =
    (record { status = some (pos 110, bytes_of "request timed out"); metadata = none }, moved)
