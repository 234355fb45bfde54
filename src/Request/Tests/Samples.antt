-- ===== src/Request/Tests/Samples.antt =====
-- A small transaction of a connector: its request, its settings, and a rule on REQUEST_URI.
use mod_security.Engine.Action.{deny, log_action, msg, pass, set_rule_id}
use mod_security.Engine.Detection.{ConfigKeeps, RuleKeeps}
use mod_security.Engine.Rule.{Operator, RuleWithOperator, RulesConfig, new_rule, with_operator}
use mod_security.Engine.State.{
  RuleEngine, Transaction, none_allow_type, property_not_set_rule_engine,
}
use mod_security.Engine.Variable.{Variable, VariableValue, text}
use mod_security.Prelude.{[], false, none, some, true, ℕ, ◌∷◌}
use mod_security.Prelude.Bytes.{Bytes}
use mod_security.Prelude.Int.{pos}
use mod_security.Prelude.Text.{codes}
use mod_security.Request.Anchored.{AnchoredVariable, new_anchored}
use mod_security.Request.Answer.{Asked}
use mod_security.Request.Arguments.{ArgumentConfig, ArgumentState}
use mod_security.Request.State.{
  BodyLimitAction, BodyVariables, HeaderVariables, Parsed, Request, ResponseVariables, Settings,
  UriVariables, not_set_log_status, property_not_set_config_boolean, relevant_only_audit_log_status,
  true_config_boolean, unknown_format,
}
use mod_security.Utils.Split.{contains_byte}

abbrev pub unset : AnchoredVariable
unset = new_anchored

abbrev pub no_arguments : ArgumentState
no_arguments = record {
  args = [];
  args_get = [];
  args_post = [];
  args_combined_size_double = 0;
  args_combined_size = unset;
  url_encoded_error = false;
}

abbrev pub no_target : UriVariables
no_target = record {
  http_version = [];
  uri = [];
  uri_decoded = [];
  request_method = unset;
  request_line = unset;
  request_protocol = unset;
  query_string = unset;
  path_info = unset;
  request_filename = unset;
  request_basename = unset;
  request_uri = unset;
  request_uri_raw = unset;
}

abbrev pub no_headers : HeaderVariables
no_headers = record {
  request_headers_names = [];
  request_headers = [];
  auth_type = unset;
  request_cookies_names = [];
  request_cookies = [];
  server_name = unset;
  reqbody_processor = unset;
}

abbrev pub no_body : BodyVariables
no_body = record {
  request_body = [];
  inbound_data_error = unset;
  reqbody_error = unset;
  reqbody_error_msg = unset;
  reqbody_processor_error = unset;
  reqbody_processor_error_msg = unset;
  full_request = unset;
  full_request_length = unset;
  request_body_text = unset;
  request_body_length = unset;
}

abbrev pub no_response : ResponseVariables
no_response = record {
  response_body = [];
  http_code_returned = pos 200;
  response_status = unset;
  response_protocol = unset;
  response_headers_names = [];
  response_headers = [];
  response_content_type = unset;
  outbound_data_error = unset;
  response_body_text = unset;
  response_content_length = unset;
}

abbrev pub new_request : Request ℕ
new_request = record {
  variable_offset = 0;
  request_body_type = unknown_format;
  request_body_processor = unknown_format;
  request_body_access = property_not_set_config_boolean;
  audit_log_modifier = [];
  ctl_audit_engine = not_set_log_status;
  audit_log_written = [];
  arguments = no_arguments;
  connection = record {
    client_port = pos 0;
    server_port = pos 0;
    remote_host = unset;
    unique_id = unset;
    remote_addr = unset;
    server_addr = unset;
    server_port_text = unset;
    remote_port_text = unset;
  };
  target = no_target;
  headers = no_headers;
  body = no_body;
  response = no_response;
  collections = 0;
}

abbrev pub new_transaction : Transaction (Request ℕ)
new_transaction = record {
  store = new_request;
  who = record {
    request_host_name = [];
    uri_no_query_string_decoded = [];
    id = codes "1";
    server_ip_address = [];
    client_ip_address = [];
  };
  it = record { status = pos 200; pause = 0; url = none; log = none; disruptive = false };
  allow_type = none_allow_type;
  skip_next = pos 0;
  marker = none;
  sec_rule_engine = property_not_set_rule_engine;
  rule_remove_by_id = [];
  rule_remove_by_id_range = [];
  rule_remove_by_tag = [];
  rule_remove_target_by_id = [];
  rule_remove_target_by_tag = [];
  matched = [];
  matched_var = none;
  matched_var_name = none;
  matched_vars = [];
  matched_vars_names = [];
  rules_messages = [];
  server_logged = [];
  highest_severity_action = pos 255;
}

abbrev pub new_asked : Asked (Request ℕ)
new_asked = record {
  transaction = new_transaction;
  is_interrupted = false;
  given = new_transaction.it;
}

abbrev uri_value : Transaction (Request ℕ) → VariableValue
uri_value t = record {
  origins = t.store.target.request_uri.anchored_origins;
  collection = codes "REQUEST_URI";
  key = codes "REQUEST_URI";
  key_with_collection = codes "REQUEST_URI";
  value = t.store.target.request_uri.anchored_value;
}

abbrev uri_variable : Variable (Request ℕ)
uri_variable = record {
  collection_name = codes "REQUEST_URI";
  name = codes "REQUEST_URI";
  full_name = codes "REQUEST_URI";
  key_regex = none;
  evaluate_variable = λ t. uri_value t ∷ [];
}

-- @contains with a parameter of one byte
abbrev contains_operator : ℕ → Operator (Request ℕ)
contains_operator c = record {
  op = codes "Contains";
  param = c ∷ [];
  match_message = [];
  negation = false;
  could_contain_macro = false;
  param_string = text (c ∷ []) ∷ [];
  evaluate_operator = λ t capturing value. record {
    is_match = contains_byte c value;
    store_after = t.store;
    matched_after = [];
    reference_added = [];
  };
}

-- SecRule REQUEST_URI "@contains '" "id:1,phase:1,msg:sqli,deny"
abbrev pub quote_rule : RuleWithOperator (Request ℕ)
quote_rule = record {
  actions =
      new_rule (set_rule_id (pos 1) ∷ msg (text (codes "sqli") ∷ []) ∷ deny ∷ []) []
        (codes "a.conf") 1;
  variables = uri_variable ∷ [];
  operator = contains_operator 39;
}

abbrev pub quote_config : RuleEngine → RulesConfig (Request ℕ)
quote_config engine = record {
  configured_rule_engine = engine;
  default_actions = λ phase. log_action ∷ pass ∷ [];
  exceptions = record {
    ranges = [];
    numbers = [];
    remove_rule_by_msg = [];
    remove_rule_by_tag = [];
    variable_update_target_by_tag = [];
    variable_update_target_by_msg = [];
    variable_update_target_by_id = [];
    action_pre_update_target_by_id = [];
    action_pos_update_target_by_id = [];
  };
}

abbrev parse_nothing : Bytes → Request ℕ → Parsed ℕ
parse_nothing body r = record { parsed_request = r; parse_error = []; no_files_length = 0 }

abbrev pub unlimited : ArgumentConfig
unlimited = record { argument_separator = none; arguments_limit = none }

abbrev pub settings_with : RuleEngine → BodyLimitAction → Settings ℕ
settings_with engine action = record {
  rules = record {
    config = quote_config engine;
    rules_at_phase = λ phase. with_operator quote_rule [] ∷ [];
  };
  request_body_limit = 5;
  request_body_limit_action = action;
  request_body_no_files_limit = some 4;
  sec_request_body_access = true_config_boolean;
  response_body_limit = 5;
  response_body_limit_action = action;
  sec_response_body_access = true_config_boolean;
  response_body_types = codes "text/html" ∷ [];
  response_body_types_set = true;
  argument_config = unlimited;
  audit_log = some (record {
    audit_status = relevant_only_audit_log_status;
    audit_parts = none;
    relevant = some (contains_byte b'5');
    writer = some (λ t parts. true);
  });
  table_order = λ l. l;
  parsers = record {
    parse_xml = parse_nothing;
    parse_json = parse_nothing;
    parse_multipart = λ type. parse_nothing;
  };
}

pub quote_config-ConfigKeeps : (engine : RuleEngine) → ConfigKeeps (quote_config engine)
quote_config-ConfigKeeps engine = record {
  defaults_keep = λ phase. (tt, (tt, tt));
  updates_keep = tt;
}

pub quote_rule-RuleKeeps : RuleKeeps quote_rule.actions
unfolding new_rule
quote_rule-RuleKeeps = record { runtime_keep = tt; disruptive_keep = tt }
