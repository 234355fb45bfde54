-- ===== src/Request/Tests.antt =====
-- Bodies, arguments and interventions of small transactions.
mod Samples
mod Texts
use mod_security.Engine.Rule.{new_rule}
use mod_security.Engine.RulesSet.{evaluate_phase}
use mod_security.Engine.State.{
  Transaction, detection_only_rule_engine, disabled_rule_engine, enabled_rule_engine,
  get_rule_engine_state, is_enabled, property_not_set_rule_engine,
}
use mod_security.Engine.Tests.Samples.{sample_transaction}
use mod_security.Prelude.{List, [], arith, false, none, refl, some, true, ℕ, ◌||◌, ◌∷◌, ◌≡◌}
use mod_security.Prelude.Bytes.{Bytes}
use mod_security.Prelude.Int.{pos}
use mod_security.Prelude.Text.{codes}
use mod_security.Request.Anchored.{new_anchored, set_anchored}
use mod_security.Request.Answer.{Asked, intervention, intervention_once}
use mod_security.Request.Arguments.{extract_arguments}
use mod_security.Request.Arguments.Extract.{WithinLimit, extract_arguments-WithinLimit}
use mod_security.Request.Arguments.RoundTrip.{extract_arguments-query_of, pairs_of, query_of}
use mod_security.Request.Body.{append_chunks, append_request_body, append_response_body}
use mod_security.Request.Body.Limit.{append_chunks-take}
use mod_security.Request.Calls.{
  Call, adds_request_header, asks_for_intervention, perform, processes_connection,
  processes_logging, processes_request_headers, processes_uri, run_call, run_calls,
}
use mod_security.Request.Calls.Off.{SameEngine, run_calls_off}
use mod_security.Request.Calls.Quiet.{run_calls_quiet}
use mod_security.Request.Headers.{add_request_header}
use mod_security.Request.Phases.{process_connection, process_request_headers}
use mod_security.Request.State.{
  Request, Settings, engine_state, process_partial_body_limit_action, reject_body_limit_action,
  with_response,
}
use mod_security.Request.Tests.Samples.{
  new_asked, new_transaction, no_arguments, no_response, quote_config-ConfigKeeps,
  quote_rule-RuleKeeps, settings_with, unlimited,
}
use mod_security.Request.Uri.{process_uri}
use mod_security.Utils.Split.{contains_byte}

abbrev partial : Settings ℕ
partial = settings_with enabled_rule_engine process_partial_body_limit_action

abbrev rejecting : Settings ℕ
rejecting = settings_with enabled_rule_engine reject_body_limit_action

abbrev html : Transaction (Request ℕ)
html =
    with_response
      (record no_response {
        response_content_type = set_anchored (codes "Text/HTML") 0 9 new_anchored;
      })
      new_transaction

append_chunks-take_example :
    (append_chunks partial
      (codes "abc" ∷ codes "def" ∷ codes "g" ∷ [])
      new_transaction).store.body.request_body
    ≡ codes "abcde"
append_chunks-take_example =
    append_chunks-take partial (codes "abc" ∷ codes "def" ∷ codes "g" ∷ []) new_transaction refl
      (omega arith) (omega arith)

-- A chunk over the limit is dropped, and a later one that fits is kept: what is inspected has a gap.
rejected_gap :
    (append_chunks rejecting
      (codes "abc" ∷ codes "def" ∷ codes "g" ∷ [])
      new_transaction).store.body.request_body
    ≡ codes "abcg"
unfolding append_request_body
rejected_gap = refl

response_cut :
    (append_response_body partial (codes "abcdef") html).0.store.response.response_body
    ≡ codes "abcde"
unfolding append_response_body set_anchored
response_cut = refl

abbrev two_pairs : List (Bytes × Bytes)
two_pairs = (codes "a", codes "1&2") ∷ (codes "b", []) ∷ []

extract_arguments-query_of_example :
    let s' = extract_arguments unlimited (codes "GET") (query_of two_pairs) 0 no_arguments in
    (pairs_of s'.args ≡ two_pairs) × (s'.url_encoded_error ≡ false)
extract_arguments-query_of_example =
    extract_arguments-query_of unlimited (codes "GET") two_pairs 0 no_arguments refl refl (
      ((omega arith, tt), (omega arith, (omega arith, (omega arith, tt)))),
      (((omega arith, tt), tt), tt),
    )

extract_arguments-WithinLimit_example : WithinLimit (some 1) (
    extract_arguments
      (record { argument_separator = none; arguments_limit = some 1 })
      (codes "GET")
      (codes "a=1&b=2")
      0
      no_arguments)
extract_arguments-WithinLimit_example =
    extract_arguments-WithinLimit (record { argument_separator = none; arguments_limit = some 1 })
      (codes "GET") (codes "a=1&b=2") 0 no_arguments (omega arith)

-- An encoding error in a key is not reported, and one in a value is.
key_error :
    ((extract_arguments unlimited (codes "GET") (codes "a%=1") 0 no_arguments).url_encoded_error
      ≡ false)
    × ((extract_arguments unlimited (codes "GET") (codes "a=1%") 0 no_arguments).url_encoded_error
        ≡ true)
unfolding extract_arguments
key_error = (refl, refl)

abbrev asked : Asked ℕ
asked = record {
  transaction = record sample_transaction {
    it = record {
      status = pos 403;
      pause = 0;
      url = some (codes "http://a/");
      log = some (codes "status %d");
      disruptive = true;
    };
  };
  is_interrupted = false;
  given = sample_transaction.it;
}

intervention_once_example :
    let first = intervention asked in
    let again = intervention first.0 in
    (first.1 ≡ asked.transaction.it.disruptive)
    × (first.0.is_interrupted ≡ (asked.transaction.it.disruptive || asked.is_interrupted))
    × (asked.transaction.it.disruptive ≡ true
        → (first.0.given.status ≡ asked.transaction.it.status)
          × (first.0.given.url ≡ asked.transaction.it.url)
          × (first.0.given.disruptive ≡ true))
    × (again.1 ≡ false)
    × (again.0 ≡ first.0)
intervention_once_example = intervention_once asked

status_in_log : (intervention asked).0.given.log ≡ some (codes "status 403")
unfolding intervention
status_in_log = refl

-- A request with a quote in its URI, phase by phase.
abbrev attack : List Call
attack =
    processes_connection (codes "10.0.0.2") (pos 1234) (codes "10.0.0.1") (pos 80)
    ∷ processes_uri (codes "/a?b=%27") (codes "GET") (codes "1.1")
    ∷ adds_request_header (codes "Host") (codes "h:80")
    ∷ processes_request_headers
    ∷ []

attack_denied :
    (intervention
      (run_calls (settings_with enabled_rule_engine reject_body_limit_action) attack new_asked)).1
    ≡ true
unfolding run_calls run_call perform process_connection process_uri add_request_header
    process_request_headers evaluate_phase intervention new_rule contains_byte
attack_denied = refl

run_calls_quiet_example :
    let a' =
      run_calls
        (settings_with detection_only_rule_engine reject_body_limit_action)
        attack
        new_asked in
    ((intervention a').1 ≡ false)
    × (a'.transaction.it.disruptive ≡ false)
    × (a'.given ≡ new_asked.given)
    × (a'.is_interrupted ≡ false)
    × (a'.transaction.sec_rule_engine ≡ property_not_set_rule_engine)
unfolding is_enabled get_rule_engine_state
run_calls_quiet_example =
    run_calls_quiet (settings_with detection_only_rule_engine reject_body_limit_action)
      (quote_config-ConfigKeeps detection_only_rule_engine) (λ p. ((quote_rule-RuleKeeps, tt), tt))
      attack new_asked refl refl

run_calls_off_example :
    SameEngine new_transaction
      (run_calls
        (settings_with disabled_rule_engine reject_body_limit_action)
        (processes_uri (codes "/a?b=%27") (codes "GET") (codes "1.1")
          ∷ processes_request_headers
          ∷ asks_for_intervention
          ∷ processes_logging
          ∷ [])
        new_asked).transaction
unfolding engine_state
run_calls_off_example =
    run_calls_off (settings_with disabled_rule_engine reject_body_limit_action)
      (processes_uri (codes "/a?b=%27") (codes "GET") (codes "1.1")
        ∷ processes_request_headers
        ∷ asks_for_intervention
        ∷ processes_logging
        ∷ [])
      new_asked (tt, (tt, (tt, (tt, tt)))) refl refl
