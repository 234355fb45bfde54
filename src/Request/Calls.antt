-- ===== src/Request/Calls.antt =====
-- The calls that a connector makes on a transaction, in any order: the public functions of
-- `Transaction` (src/transaction.cc).
pub mod Quiet
pub mod Off
use mod_security.Engine.State.{Transaction}
use mod_security.Prelude.{List, [], ◌∷◌}
use mod_security.Prelude.Bytes.{Bytes}
use mod_security.Prelude.Int.{ℤ}
use mod_security.Request.Answer.{Asked, intervention}
use mod_security.Request.Body.{append_request_body, append_response_body}
use mod_security.Request.Headers.{add_request_header, add_response_header}
use mod_security.Request.Phases.{
  process_connection, process_logging, process_request_body, process_request_headers,
  process_response_body, process_response_headers, set_request_host_name, update_status_code,
}
use mod_security.Request.State.{Request, Settings}
use mod_security.Request.Uri.{process_uri}

-- One call with its arguments.
pub data Call : Type 0 where
  processes_connection : Bytes → ℤ → Bytes → ℤ → Call
  processes_uri : Bytes → Bytes → Bytes → Call
  adds_request_header : Bytes → Bytes → Call
  processes_request_headers : Call
  appends_request_body : Bytes → Call
  processes_request_body : Call
  adds_response_header : Bytes → Bytes → Call
  processes_response_headers : ℤ → Bytes → Call
  appends_response_body : Bytes → Call
  processes_response_body : Call
  processes_logging : Call
  updates_status_code : ℤ → Call
  sets_request_host_name : Bytes → Call
  asks_for_intervention : Call

module _ {C : Type 0} where
  -- The function of the call, on the transaction; the question for an intervention is not one.
  unfoldable pub perform : Settings C → Call → Transaction (Request C) → Transaction (Request C)
  perform settings (processes_connection client c_port server s_port) t =
      process_connection settings client c_port server s_port t
  perform settings (processes_uri uri method http_version) t =
      process_uri settings uri method http_version t
  perform settings (adds_request_header key value) t = add_request_header key value t
  perform settings processes_request_headers t = process_request_headers settings t
  perform settings (appends_request_body buf) t = (append_request_body settings buf t).0
  perform settings processes_request_body t = process_request_body settings t
  perform settings (adds_response_header key value) t = add_response_header key value t
  perform settings (processes_response_headers code proto) t =
      process_response_headers settings code proto t
  perform settings (appends_response_body buf) t = (append_response_body settings buf t).0
  perform settings processes_response_body t = process_response_body settings t
  perform settings processes_logging t = process_logging settings t
  perform settings (updates_status_code code) t = update_status_code code t
  perform settings (sets_request_host_name hostname) t = set_request_host_name hostname t
  perform settings asks_for_intervention t = t

  unfoldable pub run_call : Settings C → Call → Asked (Request C) → Asked (Request C)
  run_call settings asks_for_intervention a = (intervention a).0
  run_call settings c a = record a { transaction = perform settings c a.transaction }

  unfoldable pub run_calls : Settings C → List Call → Asked (Request C) → Asked (Request C)
  run_calls settings [] a = a
  run_calls settings (c ∷ rest) a = run_calls settings rest (run_call settings c a)
