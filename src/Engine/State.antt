-- ===== src/Engine/State.antt =====
-- The part of `Transaction` (headers/modsecurity/transaction.h) that the rule engine reads and
-- writes. `S` is the rest of it: the collections, the variables of the request and what else only
-- the operators, the variables and single actions look into.
use mod_security.Engine.Intervention.{Intervention}
use mod_security.Prelude.{
  Bool, List, Option, [], false, if◌then◌else◌, none, some, true, ℕ, ◌++◌, ◌∷◌,
}
use mod_security.Prelude.Bytes.{Bytes}
use mod_security.Prelude.Int.{pos, ℤ}

-- src/actions/disruptive/allow.h
pub data AllowType : Type 0 where
  none_allow_type request_allow_type phase_allow_type from_now_on_allow_type : AllowType

-- headers/modsecurity/rules_set_properties.h
pub data RuleEngine : Type 0 where
  disabled_rule_engine enabled_rule_engine detection_only_rule_engine : RuleEngine
  property_not_set_rule_engine : RuleEngine

unfoldable pub is_enabled : RuleEngine → Bool
is_enabled enabled_rule_engine = true
is_enabled _ = false

unfoldable pub is_none_allow_type : AllowType → Bool
is_none_allow_type none_allow_type = true
is_none_allow_type _ = false

-- enum Phases of headers/modsecurity/modsecurity.h
abbrev pub connection_phase : ℕ
connection_phase = 0

abbrev pub request_headers_phase : ℕ
request_headers_phase = 2

abbrev pub request_body_phase : ℕ
request_body_phase = 3

abbrev pub response_headers_phase : ℕ
response_headers_phase = 4

abbrev pub response_body_phase : ℕ
response_body_phase = 5

abbrev pub logging_phase : ℕ
logging_phase = 6

abbrev pub number_of_phases : ℕ
number_of_phases = 7

-- What a rule carries for the logs, with its phase and its identifier.
pub record RuleInfo : Type 0 where
  pub file_name : Bytes
  pub line_number : ℕ
  pub phase : ℕ
  pub rule_id : ℤ
  pub rev : Bytes
  pub ver : Bytes
  pub accuracy : ℤ
  pub maturity : ℤ

-- headers/modsecurity/rule_message.h, but for its reference to the transaction
pub record RuleMessage : Type 0 where
  pub rule : RuleInfo
  pub text_data : Bytes
  pub is_disruptive : Bool
  pub match_text : Bytes
  pub message : Bytes
  pub no_audit_log : Bool
  pub reference : Bytes
  pub save_message : Bool
  pub severity : ℤ
  pub tags : List Bytes

-- `reset`, whose flag says whether the message is to be saved again
unfoldable pub reset_message : Bool → RuleMessage → RuleMessage
reset_message reset_save_message m = record m {
  text_data = [];
  is_disruptive = false;
  match_text = [];
  message = [];
  no_audit_log = false;
  reference = [];
  save_message = if reset_save_message then true else m.save_message;
  severity = pos 0;
  tags = [];
}

-- the constructor
unfoldable pub new_message : RuleInfo → RuleMessage
new_message r = record {
  rule = r;
  text_data = [];
  is_disruptive = false;
  match_text = [];
  message = [];
  no_audit_log = false;
  reference = [];
  save_message = true;
  severity = pos 0;
  tags = [];
}

-- Who takes part in the request: strings that the messages quote.
pub record Identity : Type 0 where
  pub request_host_name : Bytes
  pub uri_no_query_string_decoded : Bytes
  pub id : Bytes
  pub server_ip_address : Bytes
  pub client_ip_address : Bytes

pub record Transaction (S : Type 0) : Type 0 where
  pub store : S
  pub who : Identity
  pub it : Intervention
  pub allow_type : AllowType
  pub skip_next : ℤ
  pub marker : Option Bytes
  pub sec_rule_engine : RuleEngine
  pub rule_remove_by_id : List ℤ
  pub rule_remove_by_id_range : List (ℤ × ℤ)
  pub rule_remove_by_tag : List Bytes
  pub rule_remove_target_by_id : List (ℤ × Bytes)
  pub rule_remove_target_by_tag : List (Bytes × Bytes)
  pub matched : List Bytes
  pub matched_var : Option Bytes
  pub matched_var_name : Option Bytes
  pub matched_vars : List (Bytes × Bytes)
  pub matched_vars_names : List (Bytes × Bytes)
  pub rules_messages : List RuleMessage
  -- what the log callback of `ModSecurity::serverLog` was called with
  pub server_logged : List RuleMessage
  pub highest_severity_action : ℤ

module _ {S : Type 0} where
  unfoldable pub is_inside_a_marker : Transaction S → Bool
  is_inside_a_marker t = elim t.marker [ none ↦ false | some m ↦ true ]

  unfoldable pub remove_marker : Transaction S → Transaction S
  remove_marker t = record t { marker = none }

  unfoldable pub add_marker : Bytes → Transaction S → Transaction S
  add_marker name t = record t { marker = some name }

  unfoldable pub server_log : RuleMessage → Transaction S → Transaction S
  server_log m t = record t { server_logged = t.server_logged ++ m ∷ [] }

  -- `Transaction::getRuleEngineState`, with the setting of the rules
  unfoldable pub get_rule_engine_state : RuleEngine → Transaction S → RuleEngine
  get_rule_engine_state configured t = elim t.sec_rule_engine [
    | property_not_set_rule_engine ↦ configured
    | disabled_rule_engine ↦ disabled_rule_engine
    | enabled_rule_engine ↦ enabled_rule_engine
    | detection_only_rule_engine ↦ detection_only_rule_engine
  ]
