-- ===== src/Config/Properties.antt =====
-- RulesSetProperties and the merge of two of them: headers/modsecurity/rules_set_properties.h, with
-- AuditLog::merge of src/audit_log/audit_log.cc.
use mod_security.Engine.Exceptions.{merge_exceptions}
use mod_security.Engine.Rule.{RulesConfig}
use mod_security.Engine.State.{RuleEngine, property_not_set_rule_engine}
use mod_security.Prelude.{
  Bool, List, Option, [], false, if◌then◌else◌, none, not, true, ℕ, ◌++◌, ◌||◌, ◌∷◌,
}
use mod_security.Prelude.Bytes.{Bytes, str_eq, str_lt}
use mod_security.Request.State.{
  BodyLimitAction, ConfigBoolean, property_not_set_body_limit_action,
  property_not_set_config_boolean,
}

-- ConfigValue, ConfigString: a setting with its `m_set`.
pub record ConfigValue {ℓ} (A : Type ℓ) : Type ℓ where
  pub is_set : Bool
  pub value : A

-- ConfigSet
pub record ConfigSet : Type 0 where
  pub set_given : Bool
  pub is_clear : Bool
  pub members : List Bytes

-- RulesSetProperties::ConfigXMLParseXmlIntoArgs
pub data ConfigXmlParseXmlIntoArgs : Type 0 where
  true_config_xml_parse_xml_into_args false_config_xml_parse_xml_into_args :
      ConfigXmlParseXmlIntoArgs
  only_args_config_xml_parse_xml_into_args : ConfigXmlParseXmlIntoArgs
  property_not_set_config_xml_parse_xml_into_args : ConfigXmlParseXmlIntoArgs

-- The fields of RulesSetProperties but the error text, the debug log and the audit log. `U` is a code
-- page and its table.
pub record RulesSetProperties (S U : Type 0) : Type 0 where
  pub config : RulesConfig S
  pub sec_request_body_access : ConfigBoolean
  pub sec_response_body_access : ConfigBoolean
  pub sec_xml_external_entity : ConfigBoolean
  pub sec_xml_parse_xml_into_args : ConfigXmlParseXmlIntoArgs
  pub upload_keep_files : ConfigBoolean
  pub tmp_save_uploaded_files : ConfigBoolean
  pub arguments_limit : ConfigValue ℕ
  pub request_body_json_depth_limit : ConfigValue ℕ
  pub request_body_limit : ConfigValue ℕ
  pub request_body_no_files_limit : ConfigValue ℕ
  pub response_body_limit : ConfigValue ℕ
  pub request_body_limit_action : BodyLimitAction
  pub response_body_limit_action : BodyLimitAction
  pub pcre_match_limit : ConfigValue ℕ
  pub upload_file_limit : ConfigValue ℕ
  pub upload_file_mode : ConfigValue ℕ
  pub upload_directory : ConfigValue Bytes
  pub upload_tmp_directory : ConfigValue Bytes
  pub sec_argument_separator : ConfigValue Bytes
  pub sec_web_app_id : ConfigValue Bytes
  pub unicode_map_table : ConfigValue (Option U)
  pub httpbl_key : ConfigValue Bytes
  pub components : List Bytes
  pub response_body_type_to_be_inspected : ConfigSet

-- A ConfigValue as it is made.
abbrev pub not_set {ℓ} : {A : Type ℓ} → A → ConfigValue A
not_set x = record { is_set = false; value = x }

-- the constructor
unfoldable pub new_properties : (S U : Type 0) → RulesSetProperties S U
new_properties S U = record {
  config = record {
    configured_rule_engine = property_not_set_rule_engine;
    default_actions = λ i. [];
    exceptions = record {
      ranges = [];
      numbers = [];
      remove_rule_by_msg = [];
      remove_rule_by_tag = [];
      variable_update_target_by_tag = [];
      variable_update_target_by_msg = [];
      variable_update_target_by_id = [];
      action_pre_update_target_by_id = [];
      action_pos_update_target_by_id = [];
    };
  };
  sec_request_body_access = property_not_set_config_boolean;
  sec_response_body_access = property_not_set_config_boolean;
  sec_xml_external_entity = property_not_set_config_boolean;
  sec_xml_parse_xml_into_args = property_not_set_config_xml_parse_xml_into_args;
  upload_keep_files = property_not_set_config_boolean;
  tmp_save_uploaded_files = property_not_set_config_boolean;
  arguments_limit = not_set 0;
  request_body_json_depth_limit = not_set 0;
  request_body_limit = not_set 0;
  request_body_no_files_limit = not_set 0;
  response_body_limit = not_set 0;
  request_body_limit_action = property_not_set_body_limit_action;
  response_body_limit_action = property_not_set_body_limit_action;
  pcre_match_limit = not_set 0;
  upload_file_limit = not_set 0;
  upload_file_mode = not_set 0;
  upload_directory = not_set [];
  upload_tmp_directory = not_set [];
  sec_argument_separator = not_set [];
  sec_web_app_id = not_set [];
  unicode_map_table = not_set none;
  httpbl_key = not_set [];
  components = [];
  response_body_type_to_be_inspected = record { set_given = false; is_clear = false; members = [] };
}

-- merge_ruleengine_value, merge_boolean_value, merge_xmlargparse_value and
-- merge_bodylimitaction_value, whose default is always the value that is not set
unfoldable pub merge_ruleengine_value : RuleEngine → RuleEngine → RuleEngine
merge_ruleengine_value property_not_set_rule_engine from = from
merge_ruleengine_value to from = to

unfoldable pub merge_boolean_value : ConfigBoolean → ConfigBoolean → ConfigBoolean
merge_boolean_value property_not_set_config_boolean from = from
merge_boolean_value to from = to

unfoldable pub merge_xmlargparse_value :
    ConfigXmlParseXmlIntoArgs → ConfigXmlParseXmlIntoArgs → ConfigXmlParseXmlIntoArgs
merge_xmlargparse_value property_not_set_config_xml_parse_xml_into_args from = from
merge_xmlargparse_value to from = to

unfoldable pub merge_bodylimitaction_value : BodyLimitAction → BodyLimitAction → BodyLimitAction
merge_bodylimitaction_value property_not_set_body_limit_action from = from
merge_bodylimitaction_value to from = to

-- ConfigValue::merge and ConfigString::merge
unfoldable pub merge_value {ℓ} : {A : Type ℓ} → ConfigValue A → ConfigValue A → ConfigValue A
merge_value to from =
    if to.is_set || not from.is_set then to else record { is_set = true; value = from.value }

-- ConfigUnicodeMap::merge
unfoldable pub merge_unicode_map {ℓ} : {U : Type ℓ} → ConfigValue U → ConfigValue U → ConfigValue U
merge_unicode_map to from = if from.is_set then record { is_set = true; value = from.value } else to

-- a std::set
unfoldable pub insert_member : Bytes → List Bytes → List Bytes
insert_member s [] = s ∷ []
insert_member s (m ∷ rest) =
    if str_eq s m
    then m ∷ rest
    else (if str_lt s m then s ∷ (m ∷ rest) else m ∷ insert_member s rest)

unfoldable pub insert_members : List Bytes → List Bytes → List Bytes
unfolding insert_member
insert_members [] to = to
insert_members (s ∷ rest) to = insert_members rest (insert_member s to)

-- the block of mergeProperties on m_responseBodyTypeToBeInspected
unfoldable pub merge_types : ConfigSet → ConfigSet → ConfigSet
unfolding insert_members
merge_types to from =
    if from.set_given
    then (record to {
      set_given = true;
      members = if from.is_clear then [] else insert_members from.members to.members;
    })
    else to

module _ {S U : Type 0} where
  -- mergeProperties, up to the audit log and the debug log
  unfoldable pub merge_properties :
      RulesSetProperties S U → RulesSetProperties S U → RulesSetProperties S U
  unfolding merge_ruleengine_value merge_boolean_value merge_xmlargparse_value
      merge_bodylimitaction_value merge_value merge_unicode_map merge_types merge_exceptions
  merge_properties from to = record {
    config = record {
      configured_rule_engine =
          merge_ruleengine_value to.config.configured_rule_engine
            from.config.configured_rule_engine;
      default_actions = λ i. to.config.default_actions i ++ from.config.default_actions i;
      exceptions = merge_exceptions from.config.exceptions to.config.exceptions;
    };
    sec_request_body_access =
        merge_boolean_value to.sec_request_body_access from.sec_request_body_access;
    sec_response_body_access =
        merge_boolean_value to.sec_response_body_access from.sec_response_body_access;
    sec_xml_external_entity =
        merge_boolean_value to.sec_xml_external_entity from.sec_xml_external_entity;
    sec_xml_parse_xml_into_args =
        merge_xmlargparse_value to.sec_xml_parse_xml_into_args from.sec_xml_parse_xml_into_args;
    upload_keep_files = merge_boolean_value to.upload_keep_files from.upload_keep_files;
    tmp_save_uploaded_files =
        merge_boolean_value to.tmp_save_uploaded_files from.tmp_save_uploaded_files;
    arguments_limit = merge_value to.arguments_limit from.arguments_limit;
    request_body_json_depth_limit =
        merge_value to.request_body_json_depth_limit from.request_body_json_depth_limit;
    request_body_limit = merge_value to.request_body_limit from.request_body_limit;
    request_body_no_files_limit =
        merge_value to.request_body_no_files_limit from.request_body_no_files_limit;
    response_body_limit = merge_value to.response_body_limit from.response_body_limit;
    request_body_limit_action =
        merge_bodylimitaction_value to.request_body_limit_action from.request_body_limit_action;
    response_body_limit_action =
        merge_bodylimitaction_value to.response_body_limit_action from.response_body_limit_action;
    pcre_match_limit = merge_value to.pcre_match_limit from.pcre_match_limit;
    upload_file_limit = merge_value to.upload_file_limit from.upload_file_limit;
    upload_file_mode = merge_value to.upload_file_mode from.upload_file_mode;
    upload_directory = merge_value to.upload_directory from.upload_directory;
    upload_tmp_directory = merge_value to.upload_tmp_directory from.upload_tmp_directory;
    sec_argument_separator = merge_value to.sec_argument_separator from.sec_argument_separator;
    sec_web_app_id = merge_value to.sec_web_app_id from.sec_web_app_id;
    unicode_map_table = merge_unicode_map to.unicode_map_table from.unicode_map_table;
    httpbl_key = merge_value to.httpbl_key from.httpbl_key;
    components = to.components ++ from.components;
    response_body_type_to_be_inspected =
        merge_types to.response_body_type_to_be_inspected from.response_body_type_to_be_inspected;
  }
