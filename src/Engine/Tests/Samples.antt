-- ===== src/Engine/Tests/Samples.antt =====
-- A small rule set: one operator, one variable, rules that deny.
-- One variable with one value; the rest of the transaction is a number, which `setvar` counts up.
use mod_security.Engine.Action.{Action, deny, log_action, msg, pass, set_rule_id, set_var}
use mod_security.Engine.Detection.{ConfigKeeps, RuleKeeps}
use mod_security.Engine.Exceptions.{RulesExceptions}
use mod_security.Engine.Rule.{
  Operator, Rule, RuleWithOperator, RulesConfig, RulesSet, new_rule, with_operator,
}
use mod_security.Engine.State.{
  RuleEngine, Transaction, none_allow_type, property_not_set_rule_engine,
}
use mod_security.Engine.Variable.{Variable, VariableValue, text}
use mod_security.Prelude.{List, [], false, none, ℕ, ◌+◌, ◌∷◌}
use mod_security.Prelude.Int.{pos, ℤ}
use mod_security.Prelude.Text.{codes}
use mod_security.Utils.Split.{contains_byte}

abbrev pub sample_value : VariableValue
sample_value = record {
  origins = record { origin_length = 3; offset = 7 } ∷ [];
  collection = codes "ARGS";
  key = codes "id";
  key_with_collection = codes "ARGS:id";
  value = codes "1' OR";
}

abbrev pub sample_variable : Variable ℕ
sample_variable = record {
  collection_name = codes "ARGS";
  name = codes "ARGS";
  full_name = codes "ARGS";
  key_regex = none;
  evaluate_variable = λ t. sample_value ∷ [];
}

-- @contains with a parameter of one byte
abbrev pub sample_operator : ℕ → Operator ℕ
sample_operator c = record {
  op = codes "Contains";
  param = c ∷ [];
  match_message = [];
  negation = false;
  could_contain_macro = false;
  param_string = text (c ∷ []) ∷ [];
  evaluate_operator = λ t capturing value. record {
    is_match = contains_byte c value;
    store_after = t.store;
    matched_after = [];
    reference_added = [];
  };
}

abbrev pub count_up : Action ℕ
count_up = set_var (λ t. t.store + 1)

abbrev pub sample_rule : ℤ → ℕ → List (Action ℕ) → RuleWithOperator ℕ
sample_rule id c actions = record {
  actions = new_rule (set_rule_id id ∷ actions) [] (codes "a.conf") 1;
  variables = sample_variable ∷ [];
  operator = sample_operator c;
}

abbrev pub sample_transaction : Transaction ℕ
sample_transaction = record {
  store = 0;
  who = record {
    request_host_name = codes "h";
    uri_no_query_string_decoded = codes "/";
    id = codes "1";
    server_ip_address = codes "10.0.0.1";
    client_ip_address = codes "10.0.0.2";
  };
  it = record { status = pos 200; pause = 0; url = none; log = none; disruptive = false };
  allow_type = none_allow_type;
  skip_next = pos 0;
  marker = none;
  sec_rule_engine = property_not_set_rule_engine;
  rule_remove_by_id = [];
  rule_remove_by_id_range = [];
  rule_remove_by_tag = [];
  rule_remove_target_by_id = [];
  rule_remove_target_by_tag = [];
  matched = [];
  matched_var = none;
  matched_var_name = none;
  matched_vars = [];
  matched_vars_names = [];
  rules_messages = [];
  server_logged = [];
  highest_severity_action = pos 255;
}

abbrev pub no_exceptions : RulesExceptions ℕ
no_exceptions = record {
  ranges = [];
  numbers = pos 7 ∷ [];
  remove_rule_by_msg = [];
  remove_rule_by_tag = [];
  variable_update_target_by_tag = [];
  variable_update_target_by_msg = [];
  variable_update_target_by_id = [];
  action_pre_update_target_by_id = [];
  action_pos_update_target_by_id = [];
}

abbrev pub config_in : RuleEngine → RulesConfig ℕ
config_in engine = record {
  configured_rule_engine = engine;
  default_actions = λ phase. log_action ∷ pass ∷ [];
  exceptions = no_exceptions;
}

abbrev pub denying : RuleWithOperator ℕ
denying = sample_rule (pos 1) b'O' (count_up ∷ msg (text (codes "sqli") ∷ []) ∷ deny ∷ [])

abbrev pub sample_rules : List (Rule ℕ)
sample_rules = with_operator denying [] ∷ with_operator denying [] ∷ []

abbrev pub rules_in : RuleEngine → RulesSet ℕ
rules_in engine = record { config = config_in engine; rules_at_phase = λ phase. sample_rules }

pub config_in-ConfigKeeps : (engine : RuleEngine) → ConfigKeeps (config_in engine)
config_in-ConfigKeeps engine = record { defaults_keep = λ phase. (tt, (tt, tt)); updates_keep = tt }

pub denying-RuleKeeps : RuleKeeps denying.actions
unfolding new_rule
denying-RuleKeeps = record { runtime_keep = tt; disruptive_keep = tt }
