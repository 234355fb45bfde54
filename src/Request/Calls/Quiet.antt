-- ===== src/Request/Calls/Quiet.antt =====
-- A connector's calls while the engine is not On.
use mod_security.Engine.Detection.{ConfigKeeps}
use mod_security.Engine.Detection.Safety.{AllRulesKeep, evaluate_phase_not_enforcing}
use mod_security.Engine.Intervention.{Intervention}
use mod_security.Engine.RulesSet.{evaluate_phase}
use mod_security.Engine.State.{
  Transaction, connection_phase, get_rule_engine_state, is_enabled, logging_phase,
  request_body_phase, request_headers_phase, response_body_phase, response_headers_phase,
}
use mod_security.Engine.Verdict.{enforcing}
use mod_security.Prelude.{List, [], ap, arith, false, refl, ℕ, ◌∙◌, ◌∷◌, ◌≡◌}
use mod_security.Prelude.Bytes.{Bytes}
use mod_security.Request.Answer.{Asked, intervention, intervention_once}
use mod_security.Request.AuditLog.{save_if_relevant, write_audit}
use mod_security.Request.Body.{append_request_body, append_response_body, reject}
use mod_security.Request.Calls.{
  Call, adds_request_header, adds_response_header, appends_request_body, appends_response_body,
  asks_for_intervention, perform, processes_connection, processes_logging, processes_request_body,
  processes_request_headers, processes_response_body, processes_response_headers, processes_uri,
  run_call, run_calls, sets_request_host_name, updates_status_code,
}
use mod_security.Request.Headers.{add_request_header, add_response_header}
use mod_security.Request.Phases.{
  log_transaction, parse_request_body, process_connection, process_logging, process_request_body,
  process_request_headers, process_response_body, process_response_headers, set_body_variables,
  set_connection, set_request_host_name, set_response_body, set_response_line, update_status_code,
}
use mod_security.Request.State.{Request, Settings, engine_state}
use mod_security.Request.Uri.{process_uri}

-- Whether the request is disrupted, and the mode of the engine, are those from before.
pub record StaysQuiet {S : Type 0} (t t' : Transaction S) : Type 0 where
  pub disruptive_kept : t'.it.disruptive ≡ t.it.disruptive
  pub engine_kept : t'.sec_rule_engine ≡ t.sec_rule_engine

module _ {C : Type 0} (settings : Settings C) where
  enforcing-StaysQuiet :
      {t u : Transaction (Request C)}
      → StaysQuiet t u
      → enforcing settings.rules.config t ≡ false
      → enforcing settings.rules.config u ≡ false
  unfolding is_enabled get_rule_engine_state
  enforcing-StaysQuiet h e = ground arith

  log_transaction-StaysQuiet :
      (t : Transaction (Request C)) → StaysQuiet t (log_transaction settings t)
  unfolding log_transaction save_if_relevant write_audit
  log_transaction-StaysQuiet t = ground arith

  append_request_body-StaysQuiet :
      (buf : Bytes) (t : Transaction (Request C))
      → enforcing settings.rules.config t ≡ false
      → StaysQuiet t (append_request_body settings buf t).0
  unfolding append_request_body reject engine_state
  append_request_body-StaysQuiet buf t e = ground arith

  append_response_body-StaysQuiet :
      (buf : Bytes) (t : Transaction (Request C))
      → enforcing settings.rules.config t ≡ false
      → StaysQuiet t (append_response_body settings buf t).0
  unfolding append_response_body reject engine_state
  append_response_body-StaysQuiet buf t e = ground arith

  module _ (c : ConfigKeeps settings.rules.config)
      (k : (p : ℕ) → AllRulesKeep (settings.rules.rules_at_phase p)) where
    phase-StaysQuiet :
        (phase : ℕ) (t : Transaction (Request C))
        → enforcing settings.rules.config t ≡ false
        → StaysQuiet t (evaluate_phase settings.rules phase t)
    phase-StaysQuiet phase t e =
        let h = evaluate_phase_not_enforcing settings.rules phase t c (k phase) e in
        record { disruptive_kept = h.0; engine_kept = h.3 }

    -- where only the store and the identities were changed before the phase
    from_phase :
        {t : Transaction (Request C)} (phase : ℕ) (u : Transaction (Request C))
        → enforcing settings.rules.config u ≡ false
        → (u.it ≡ t.it) × (u.sec_rule_engine ≡ t.sec_rule_engine)
        → StaysQuiet t (evaluate_phase settings.rules phase u)
    from_phase phase u e same =
        let h = phase-StaysQuiet phase u e in
        record {
          disruptive_kept = h.disruptive_kept ∙ ap (λ (i : Intervention). i.disruptive) same.0;
          engine_kept = h.engine_kept ∙ same.1;
        }

    process_logging-StaysQuiet :
        (t : Transaction (Request C))
        → enforcing settings.rules.config t ≡ false
        → StaysQuiet t (process_logging settings t)
    unfolding process_logging
    process_logging-StaysQuiet t e =
        let t' = evaluate_phase settings.rules logging_phase t in
        ground (arith, phase-StaysQuiet logging_phase t e, log_transaction-StaysQuiet t')

    process_request_body-StaysQuiet :
        (t : Transaction (Request C))
        → enforcing settings.rules.config t ≡ false
        → StaysQuiet t (process_request_body settings t)
    unfolding process_request_body
    process_request_body-StaysQuiet t e =
        let r = parse_request_body settings t.store in
        let t' = record t { store = record r { body = set_body_variables settings r } } in
        let h : StaysQuiet t' (evaluate_phase settings.rules request_body_phase t') =
          phase-StaysQuiet request_body_phase t' e in
        ground (arith, h)

    perform-StaysQuiet :
        (call : Call) (t : Transaction (Request C))
        → enforcing settings.rules.config t ≡ false
        → StaysQuiet t (perform settings call t)
    unfolding perform get_rule_engine_state
    perform-StaysQuiet (processes_connection client c_port server s_port) t e =
        unfold process_connection in
        from_phase connection_phase (set_connection client c_port server s_port t) e (refl, refl)
    perform-StaysQuiet (processes_uri uri method http_version) t e =
        unfold process_uri in ground arith
    perform-StaysQuiet (adds_request_header key value) t e =
        unfold add_request_header in ground arith
    perform-StaysQuiet processes_request_headers t e =
        unfold process_request_headers in ground (arith, phase-StaysQuiet request_headers_phase t e)
    perform-StaysQuiet (appends_request_body buf) t e = append_request_body-StaysQuiet buf t e
    perform-StaysQuiet processes_request_body t e = process_request_body-StaysQuiet t e
    perform-StaysQuiet (adds_response_header key value) t e =
        unfold add_response_header in ground arith
    perform-StaysQuiet (processes_response_headers code proto) t e =
        unfold process_response_headers in
        let t' = set_response_line code proto t in
        let h : StaysQuiet t (evaluate_phase settings.rules response_headers_phase t') =
          from_phase response_headers_phase t' e (refl, refl) in
        ground (arith, h)
    perform-StaysQuiet (appends_response_body buf) t e = append_response_body-StaysQuiet buf t e
    perform-StaysQuiet processes_response_body t e =
        unfold process_response_body in
        let t' = set_response_body t in
        let h : StaysQuiet t (evaluate_phase settings.rules response_body_phase t') =
          from_phase response_body_phase t' e (refl, refl) in
        ground (arith, h)
    perform-StaysQuiet processes_logging t e = process_logging-StaysQuiet t e
    perform-StaysQuiet (updates_status_code code) t e = unfold update_status_code in ground arith
    perform-StaysQuiet (sets_request_host_name hostname) t e =
        unfold set_request_host_name in ground arith
    perform-StaysQuiet asks_for_intervention t e = ground arith

    -- A call leaves alone what a connector may see of an intervention.
    run_call_quiet :
        (call : Call) (a : Asked (Request C))
        → enforcing settings.rules.config a.transaction ≡ false
        → a.transaction.it.disruptive ≡ false
        → let a' = run_call settings call a in
          StaysQuiet a.transaction a'.transaction
          × (a'.given ≡ a.given)
          × (a'.is_interrupted ≡ a.is_interrupted)
    unfolding run_call
    run_call_quiet asks_for_intervention a e d =
        unfold intervention in (ground arith, ground arith, ground arith)
    run_call_quiet call a e d = (perform-StaysQuiet call a.transaction e, refl, refl)

    -- While the engine is not On, whatever a connector calls in whatever order, and whatever the
    -- operators, the variables, the scripts and the body parsers answer, a request that is not
    -- disrupted stays so: no call is answered by an intervention, the connector's structure and
    -- m_isInterrupted are those from before, and so is the mode of the engine; if no default action,
    -- no action that updates a rule and no action of a rule of any phase is a ctl:ruleEngine.
    pub run_calls_quiet :
        (calls : List Call) (a : Asked (Request C))
        → enforcing settings.rules.config a.transaction ≡ false
        → a.transaction.it.disruptive ≡ false
        → let a' = run_calls settings calls a in
          ((intervention a').1 ≡ false)
          × (a'.transaction.it.disruptive ≡ false)
          × (a'.given ≡ a.given)
          × (a'.is_interrupted ≡ a.is_interrupted)
          × (a'.transaction.sec_rule_engine ≡ a.transaction.sec_rule_engine)
    unfolding run_calls
    run_calls_quiet [] a e d = ((intervention_once a).0 ∙ d, d, refl, refl, refl)
    run_calls_quiet (call ∷ rest) a e d =
        let h = run_call_quiet call a e d in
        let e' = enforcing-StaysQuiet h.0 e in
        let ih = run_calls_quiet rest (run_call settings call a) e' (h.0.disruptive_kept ∙ d) in
        (ih.0, ih.1, ih.2 ∙ h.1, ih.3 ∙ h.2, ih.4 ∙ h.0.engine_kept)
