-- ===== src/Http/Server.antt =====
-- src/network/http/server.cpp: the handlers of requests, and which request goes to which.
pub mod Replies
pub mod Stopping
use palmira.Prelude.{
  ℕ, Bool, true, false, List, [], ◌∷◌, ◌&&◌, take, Option, none, some, if◌then◌else◌, Result, ok,
  err, Exception, ◌>>=◌,
}
use Prim.Native.String.{String}
use palmira.Prelude.Int.{ℤ, pos}
use palmira.Values.{Bytes, bytes_of, key_charstr, Zmap, no_entry, entry, z_int32, z_charstr, z_zmap}
use palmira.Document.{same_bytes}
use palmira.Http.Load.{Request}
use palmira.Http.Unpack.{Inflated, encoding_of, inflate_message}

pub data Method : Type 0 where
  method_get method_post method_other : Method

-- http::Request, as the handlers read it: two of its headers, its method, what the loaders read of it,
-- and its body.
pub record Incoming : Type 0 where
  pub content_type : Bytes
  pub content_encoding : Bytes
  pub method : Method
  pub request : Request
  pub src : Option Bytes

-- IsJson, IsDump and IsHead
unfoldable pub is_json : Incoming → Bool
unfolding same_bytes
is_json req = same_bytes (take 16 req.content_type) (bytes_of "application/json")

unfoldable pub is_dump : Incoming → Bool
unfolding same_bytes
is_dump req = same_bytes (take 24 req.content_type) (bytes_of "application/octet-stream")

abbrev pub is_get : Method → Bool
is_get method_get = true
is_get method_post = false
is_get method_other = false

unfoldable pub is_head : Incoming → Bool
unfolding same_bytes
is_head req = same_bytes req.content_type [] && is_get req.method

-- reports.hpp: StatusReport( code, info )
unfoldable pub status_report : ℤ → Bytes → Zmap
status_report code info =
    entry (key_charstr (bytes_of "status"))
      (z_zmap (
        entry (key_charstr (bytes_of "code")) (z_int32 code)
          (entry (key_charstr (bytes_of "info")) (z_charstr info) no_entry)))
      no_entry

pub data StatusCode : Type 0 where
  status_ok status_bad_request : StatusCode

-- OutputHTML and OutputJSON, with what they put out.
pub data Reply : Type 0 where
  output_html : StatusCode → String → Reply
  output_json : StatusCode → Zmap → Reply

abbrev pub einval : ℤ
einval = pos 22

module _ (parse_failure : String → Bytes) where
  -- The handlers of exceptions, of those that the loading or the service threw.
  unfoldable pub caught : Result Reply → Result Reply
  unfolding status_report
  caught (ok r) = ok r
  caught (err (Exception.parse_error what)) =
      ok (output_json status_ok (status_report einval (parse_failure what)))
  caught (err (Exception.invalid_argument what)) = ok (output_html status_bad_request what)
  caught (err x) = err x

  module _ {A : Type 0} (load_json load_dump : Request → Option Bytes → Result A)
      (call : A → Result Zmap) where
    -- The choice of the loader. Without a body, JSON is loaded from a null stream.
    unfoldable pub load_args : Incoming → Option Bytes → Result A
    unfolding is_json is_dump is_head
    load_args req stream =
        if is_json req
        then load_json req.request stream
        else if is_dump req
        then load_dump req.request stream
        else if is_head req
        then load_json req.request none
        else err (Exception.logic_error "Unexpected request method")

    module _ {Z : Type 0} (inflate_init : Bytes → Option Z) (inflate : Z → ℕ → Inflated Z)
        (fuel unset : ℕ) where
      -- ActionCall::operator(): the body is unpacked outside of the handlers of exceptions.
      unfoldable pub action_call : (cancelled : Bool) → Incoming → Result Reply
      unfolding caught load_args encoding_of inflate_message
      action_call cancelled req =
          inflate_message inflate_init inflate fuel unset (encoding_of req.content_encoding) req.src
          >>= λ stream.
              if cancelled
              then ok (output_html status_ok "request cancelled by user")
              else caught (
                  load_args req stream >>= λ args.
                  call args >>= λ report. ok (output_json status_ok report))

-- The operations that the paths lead to.
pub data Action : Type 0 where
  health_action remove_action update_action insert_action search_action : Action

-- RegisterHandler, in the constructor of Server.
unfoldable pub route : Bytes → Method → Option Action
unfolding same_bytes
route path method_get =
    if same_bytes path (bytes_of "/health")
    then some health_action
    else if same_bytes path (bytes_of "/delete")
    then some remove_action
    else if same_bytes path (bytes_of "/remove")
    then some remove_action
    else if same_bytes path (bytes_of "/update")
    then some update_action
    else if same_bytes path (bytes_of "/search")
    then some search_action
    else none
route path method_post =
    if same_bytes path (bytes_of "/delete")
    then some remove_action
    else if same_bytes path (bytes_of "/remove")
    then some remove_action
    else if same_bytes path (bytes_of "/update")
    then some update_action
    else if same_bytes path (bytes_of "/insert")
    then some insert_action
    else if same_bytes path (bytes_of "/search")
    then some search_action
    else none
route path method_other = none
