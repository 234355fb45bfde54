-- ===== src/Request/Calls/Off.antt =====
-- A connector's calls while the engine is off.
use mod_security.Engine.State.{Transaction, disabled_rule_engine, get_rule_engine_state}
use mod_security.Prelude.{List, [], arith, false, refl, ◌∙◌, ◌∷◌, ◌≡◌}
use mod_security.Prelude.Bytes.{All, Bytes}
use mod_security.Prelude.Int.{ℤ}
use mod_security.Request.Answer.{Asked, intervention}
use mod_security.Request.Body.{append_request_body, append_response_body, reject}
use mod_security.Request.Calls.{
  Call, adds_request_header, adds_response_header, appends_request_body, appends_response_body,
  asks_for_intervention, perform, processes_connection, processes_logging, processes_request_body,
  processes_request_headers, processes_response_body, processes_response_headers, processes_uri,
  run_call, run_calls, sets_request_host_name, updates_status_code,
}
use mod_security.Request.Headers.{add_request_header, add_response_header}
use mod_security.Request.Phases.{
  process_logging, process_request_body, process_request_headers, process_response_body,
  process_response_headers, set_request_host_name, update_status_code,
}
use mod_security.Request.State.{Request, Settings, engine_state}
use mod_security.Request.Uri.{process_uri}

-- Every call but processConnection, which evaluates its phase in any mode.
abbrev pub IsNotConnection : Call → Type 0
IsNotConnection (processes_connection client c_port server s_port) = ⊥
IsNotConnection _ = Unit

-- All of a transaction but the request itself: the interventions, `allow`, `skip` and `skipAfter`,
-- the removed rules and targets, what was matched, and the messages.
pub record SameEngine {C : Type 0} (t t' : Transaction (Request C)) : Type 0 where
  pub same_all : record t' { store = t.store; who = t.who } ≡ t
  pub same_written : t'.store.audit_log_written ≡ t.store.audit_log_written

module _ {C : Type 0} (settings : Settings C) where
  SameEngine-trans :
      {t u v : Transaction (Request C)} → SameEngine t u → SameEngine u v → SameEngine t v
  SameEngine-trans h k = ground arith

  append_request_body-SameEngine :
      (buf : Bytes) (t : Transaction (Request C))
      → engine_state settings t ≡ disabled_rule_engine
      → SameEngine t (append_request_body settings buf t).0
  unfolding append_request_body reject engine_state get_rule_engine_state
  append_request_body-SameEngine buf t e = ground arith

  append_response_body-SameEngine :
      (buf : Bytes) (t : Transaction (Request C))
      → engine_state settings t ≡ disabled_rule_engine
      → SameEngine t (append_response_body settings buf t).0
  unfolding append_response_body reject engine_state get_rule_engine_state
  append_response_body-SameEngine buf t e = ground arith

  process_response_headers-SameEngine :
      (code : ℤ) (proto : Bytes) (t : Transaction (Request C))
      → engine_state settings t ≡ disabled_rule_engine
      → SameEngine t (process_response_headers settings code proto t)
  unfolding process_response_headers engine_state get_rule_engine_state
  process_response_headers-SameEngine code proto t e = ground arith

  perform-SameEngine :
      (call : Call) (t : Transaction (Request C))
      → IsNotConnection call
      → engine_state settings t ≡ disabled_rule_engine
      → SameEngine t (perform settings call t)
  unfolding perform
  perform-SameEngine (processes_connection client c_port server s_port) t n e = elim n [ ]
  perform-SameEngine (processes_uri uri method http_version) t n e =
      unfold process_uri in record { same_all = refl; same_written = refl }
  perform-SameEngine (adds_request_header key value) t n e =
      unfold add_request_header in record { same_all = refl; same_written = refl }
  perform-SameEngine processes_request_headers t n e =
      unfold process_request_headers in ground arith
  perform-SameEngine (appends_request_body buf) t n e = append_request_body-SameEngine buf t e
  perform-SameEngine processes_request_body t n e = unfold process_request_body in ground arith
  perform-SameEngine (adds_response_header key value) t n e =
      unfold add_response_header in ground arith
  perform-SameEngine (processes_response_headers code proto) t n e =
      process_response_headers-SameEngine code proto t e
  perform-SameEngine (appends_response_body buf) t n e = append_response_body-SameEngine buf t e
  perform-SameEngine processes_response_body t n e = unfold process_response_body in ground arith
  perform-SameEngine processes_logging t n e = unfold process_logging in ground arith
  perform-SameEngine (updates_status_code code) t n e =
      unfold update_status_code in record { same_all = refl; same_written = refl }
  perform-SameEngine (sets_request_host_name hostname) t n e =
      unfold set_request_host_name in ground arith
  perform-SameEngine asks_for_intervention t n e = record { same_all = refl; same_written = refl }

  -- the mode is one of the fields that stay
  engine_state-SameEngine :
      {t u : Transaction (Request C)}
      → SameEngine t u
      → engine_state settings u ≡ engine_state settings t
  unfolding engine_state get_rule_engine_state
  engine_state-SameEngine h = ground arith

  run_call-SameEngine :
      (call : Call) (a : Asked (Request C))
      → IsNotConnection call
      → engine_state settings a.transaction ≡ disabled_rule_engine
      → a.transaction.it.disruptive ≡ false
      → SameEngine a.transaction (run_call settings call a).transaction
  unfolding run_call
  run_call-SameEngine asks_for_intervention a n e d = unfold intervention in ground arith
  run_call-SameEngine call a n e d = perform-SameEngine call a.transaction n e

  -- With SecRuleEngine Off, or switched off for the transaction, no rule runs: whatever a connector
  -- calls in whatever order, but for processConnection, on a transaction that is not disrupted, all
  -- but the request and the identities is as it was (the intervention, `allow`, `skip`, `skipAfter`,
  -- the removed rules and targets, what was matched, the messages and what was logged), and nothing
  -- is written to the audit log.
  pub run_calls_off :
      (calls : List Call) (a : Asked (Request C))
      → All IsNotConnection calls
      → engine_state settings a.transaction ≡ disabled_rule_engine
      → a.transaction.it.disruptive ≡ false
      → SameEngine a.transaction (run_calls settings calls a).transaction
  unfolding run_calls
  run_calls_off [] a n e d = record { same_all = refl; same_written = refl }
  run_calls_off (call ∷ rest) a n e d =
      let h = run_call-SameEngine call a n.0 e d in
      SameEngine-trans h (
        run_calls_off rest (run_call settings call a) n.1 (engine_state-SameEngine h ∙ e)
          (ground arith))
