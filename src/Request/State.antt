-- ===== src/Request/State.antt =====
-- The fields of `Transaction` (headers/modsecurity/transaction.h) that hold the request and the
-- response: what the rule engine's transaction calls its store. `C` is what is left: the collections
-- and the variables of uploaded files.
use mod_security.Engine.Rule.{RulesSet}
use mod_security.Engine.State.{RuleEngine, Transaction, get_rule_engine_state}
use mod_security.Prelude.{Bool, List, Option, ℕ}
use mod_security.Prelude.Bytes.{Bytes}
use mod_security.Prelude.Int.{ℤ}
use mod_security.Request.Anchored.{AnchoredSet, AnchoredVariable}
use mod_security.Request.Arguments.{ArgumentConfig, ArgumentState}

-- enum RequestBodyType
pub data RequestBodyType : Type 0 where
  unknown_format multi_part_request_body www_form_url_encoded : RequestBodyType
  json_request_body xml_request_body : RequestBodyType

-- RulesSetProperties::ConfigBoolean
pub data ConfigBoolean : Type 0 where
  true_config_boolean false_config_boolean property_not_set_config_boolean : ConfigBoolean

-- AuditLog::AuditLogStatus
pub data AuditLogStatus : Type 0 where
  not_set_log_status on_audit_log_status off_audit_log_status : AuditLogStatus
  relevant_only_audit_log_status : AuditLogStatus

-- A bit of AuditLog::AuditLogParts, and the bits that an `int` of parts has.
pub data AuditLogPart : Type 0 where
  part_a part_b part_c part_d part_e part_f part_g part_h part_i part_j part_k part_z : AuditLogPart

abbrev pub AuditLogParts : Type 0
AuditLogParts = AuditLogPart → Bool

-- What processConnection sets.
pub record ConnectionVariables : Type 0 where
  pub client_port : ℤ
  pub server_port : ℤ
  pub remote_host : AnchoredVariable
  pub unique_id : AnchoredVariable
  pub remote_addr : AnchoredVariable
  pub server_addr : AnchoredVariable
  pub server_port_text : AnchoredVariable
  pub remote_port_text : AnchoredVariable

-- What processURI sets.
pub record UriVariables : Type 0 where
  pub http_version : Bytes
  pub uri : Bytes
  pub uri_decoded : Bytes
  pub request_method : AnchoredVariable
  pub request_line : AnchoredVariable
  pub request_protocol : AnchoredVariable
  pub query_string : AnchoredVariable
  pub path_info : AnchoredVariable
  pub request_filename : AnchoredVariable
  pub request_basename : AnchoredVariable
  pub request_uri : AnchoredVariable
  pub request_uri_raw : AnchoredVariable

-- What addRequestHeader sets.
pub record HeaderVariables : Type 0 where
  pub request_headers_names : AnchoredSet
  pub request_headers : AnchoredSet
  pub auth_type : AnchoredVariable
  pub request_cookies_names : AnchoredSet
  pub request_cookies : AnchoredSet
  pub server_name : AnchoredVariable
  pub reqbody_processor : AnchoredVariable

-- What appendRequestBody and processRequestBody set.
pub record BodyVariables : Type 0 where
  pub request_body : Bytes
  pub inbound_data_error : AnchoredVariable
  pub reqbody_error : AnchoredVariable
  pub reqbody_error_msg : AnchoredVariable
  pub reqbody_processor_error : AnchoredVariable
  pub reqbody_processor_error_msg : AnchoredVariable
  pub full_request : AnchoredVariable
  pub full_request_length : AnchoredVariable
  pub request_body_text : AnchoredVariable
  pub request_body_length : AnchoredVariable

-- What the functions for the response set.
pub record ResponseVariables : Type 0 where
  pub response_body : Bytes
  pub http_code_returned : ℤ
  pub response_status : AnchoredVariable
  pub response_protocol : AnchoredVariable
  pub response_headers_names : AnchoredSet
  pub response_headers : AnchoredSet
  pub response_content_type : AnchoredVariable
  pub outbound_data_error : AnchoredVariable
  pub response_body_text : AnchoredVariable
  pub response_content_length : AnchoredVariable

-- `request_body_type`, `request_body_processor`, `request_body_access`, `audit_log_modifier` and
-- `ctl_audit_engine` are set by the ctl actions, too; a pair of the modifier is a list of letters and
-- whether it is to be added. `audit_log_written` has the parts of each call of the audit log's writer.
pub record Request (C : Type 0) : Type 0 where
  pub variable_offset : ℕ
  pub request_body_type : RequestBodyType
  pub request_body_processor : RequestBodyType
  pub request_body_access : ConfigBoolean
  pub audit_log_modifier : List (Bool × Bytes)
  pub ctl_audit_engine : AuditLogStatus
  pub audit_log_written : List AuditLogParts
  pub arguments : ArgumentState
  pub connection : ConnectionVariables
  pub target : UriVariables
  pub headers : HeaderVariables
  pub body : BodyVariables
  pub response : ResponseVariables
  pub collections : C

pub data BodyLimitAction : Type 0 where
  process_partial_body_limit_action : BodyLimitAction
  reject_body_limit_action : BodyLimitAction
  property_not_set_body_limit_action : BodyLimitAction

-- What a body parser leaves behind: the request, its error text, and the m_reqbody_no_files_length
-- of a multipart body.
pub record Parsed (C : Type 0) : Type 0 where
  pub parsed_request : Request C
  pub parse_error : Bytes
  pub no_files_length : ℕ

-- The parsers of the body, each from `init` to `complete`: a multipart one is made from the
-- Content-Type.
pub record BodyParsers (C : Type 0) : Type 0 where
  pub parse_xml : Bytes → Request C → Parsed C
  pub parse_json : Bytes → Request C → Parsed C
  pub parse_multipart : Bytes → Bytes → Request C → Parsed C

-- The audit log of the rules: m_status, m_parts where it is set, whether
-- `Utils::regex_search` finds m_relevant, which is not empty, in a text, and the writer, with whether
-- its `write` succeeds.
pub record AuditLogConfig (C : Type 0) : Type 0 where
  pub audit_status : AuditLogStatus
  pub audit_parts : Option AuditLogParts
  pub relevant : Option (Bytes → Bool)
  pub writer : Option (Transaction (Request C) → AuditLogParts → Bool)

-- The rules with the properties of the rule set that the functions of a transaction read. A body
-- limit of 0 is none. `table_order` is the order in which an unordered container shows what was put
-- into it.
pub record Settings (C : Type 0) : Type 0 where
  pub rules : RulesSet (Request C)
  pub request_body_limit : ℕ
  pub request_body_limit_action : BodyLimitAction
  pub request_body_no_files_limit : Option ℕ
  pub sec_request_body_access : ConfigBoolean
  pub response_body_limit : ℕ
  pub response_body_limit_action : BodyLimitAction
  pub sec_response_body_access : ConfigBoolean
  pub response_body_types : List Bytes
  pub response_body_types_set : Bool
  pub argument_config : ArgumentConfig
  pub audit_log : Option (AuditLogConfig C)
  pub table_order : AnchoredSet → AnchoredSet
  pub parsers : BodyParsers C

module _ {C : Type 0} where
  -- the setting of the rules, or that of ctl:ruleEngine
  unfoldable pub engine_state : Settings C → Transaction (Request C) → RuleEngine
  unfolding get_rule_engine_state
  engine_state settings t = get_rule_engine_state settings.rules.config.configured_rule_engine t

  abbrev pub with_body : BodyVariables → Transaction (Request C) → Transaction (Request C)
  with_body b t = record t { store = record (t.store) { body = b } }

  abbrev pub with_response : ResponseVariables → Transaction (Request C) → Transaction (Request C)
  with_response r t = record t { store = record (t.store) { response = r } }
