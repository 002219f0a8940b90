-- ===== src/Http/Client/Answer.antt =====
-- The report out of the answer to a request, and what the waiter is told.
use palmira.Prelude.{
  ℕ, [], take, Option, none, some, if◌then◌else◌, Result, ok, err, Exception, ◌>>=◌,
}
use palmira.Prelude.Int.{ℤ, pos}
use palmira.Values.{Bytes, bytes_of, Zmap, no_entry}
use palmira.Document.{same_bytes}
use palmira.Http.Unpack.{Inflated, Encoding, no_encoding, encoding_of, inflate_message}
use palmira.Http.Server.{status_report}

-- http::Respond, as the client reads it.
pub record Answer : Type 0 where
  pub content_type : Bytes
  pub content_encoding : Bytes

-- http::ExecStatus
pub data ExecStatus : Type 0 where
  exec_ok exec_failed exec_invalid exec_timed_out : ExecStatus

abbrev efault : ℤ
efault = pos 14

abbrev etimedout : ℤ
etimedout = pos 110

-- The report that `Parse` gives, or the one for a text that it refuses.
unfoldable pub parsed_report : Result Zmap → Result Zmap
unfolding status_report
parsed_report (err (Exception.parse_error what)) =
    ok (status_report efault (bytes_of "Could not parse the report"))
parsed_report r = r

-- What is left in the stream itself when Inflate is done: it has read all of a compressed body.
unfoldable pub left_of : Encoding → Bytes → Bytes
left_of no_encoding stm = stm
left_of _ stm = []

abbrev pub bytes_or_none : Option Bytes → Bytes
bytes_or_none none = []
bytes_or_none (some bs) = bs

module _ (json_parse : Bytes → Result Zmap) (fetch_zmap : Bytes → Zmap) {Z : Type 0}
    (inflate_init : Bytes → Option Z) (inflate : Z → ℕ → Inflated Z) (fuel unset : ℕ) where
  -- LoadReport. The binary form is fetched from `stm`, not from what was unpacked.
  unfoldable pub load_report : Answer → Option Bytes → Result Zmap
  unfolding encoding_of inflate_message same_bytes parsed_report left_of
  load_report res none = ok no_entry
  load_report res (some stm) =
      inflate_message inflate_init inflate fuel unset (encoding_of res.content_encoding) (some stm)
      >>= λ src.
          if same_bytes (take 16 res.content_type) (bytes_of "application/json")
          then parsed_report (json_parse (bytes_or_none src))
          else if same_bytes (take 24 res.content_type) (bytes_of "application/octet-stream")
          then ok (fetch_zmap (left_of (encoding_of res.content_encoding) stm))
          else err (Exception.invalid_argument "Unexpected content-type")

  -- Action::operator(): what Done is called with, if it is called.
  unfoldable pub done_with : ExecStatus → Answer → Option Bytes → Result Zmap
  unfolding load_report status_report
  done_with exec_ok res stm = load_report res stm
  done_with exec_failed res stm = ok (status_report efault (bytes_of "network exchange error"))
  done_with exec_invalid res stm = ok (status_report efault (bytes_of "network exchange error"))
  done_with exec_timed_out res stm = ok (status_report etimedout (bytes_of "request timed out"))
