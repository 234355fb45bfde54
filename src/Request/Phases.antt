-- ===== src/Request/Phases.antt =====
-- What a connector calls phase by phase, of src/transaction.cc: processConnection,
-- processRequestHeaders, processRequestBody, processResponseHeaders, processResponseBody and
-- processLogging.
use mod_security.Engine.RulesSet.{evaluate_phase}
use mod_security.Engine.State.{
  RuleEngine, Transaction, connection_phase, disabled_rule_engine, logging_phase,
  request_body_phase, request_headers_phase, response_body_phase, response_headers_phase,
}
use mod_security.Prelude.{
  Bool, Option, [], false, if◌then◌else◌, length, ltb, map, none, not, reverse, some, true, ℕ, ◌&&◌,
  ◌++◌, ◌+◌, ◌||◌, ◌∷◌,
}
use mod_security.Prelude.Bytes.{Bytes}
use mod_security.Prelude.Int.{ℤ}
use mod_security.Prelude.Text.{codes}
use mod_security.Request.Anchored.{AnchoredSet, is_empty, resolve_first, set_anchored, set_value}
use mod_security.Request.Arguments.{extract_arguments}
use mod_security.Request.AuditLog.{get_parts, modify_parts, save_if_relevant}
use mod_security.Request.Body.{is_inspected}
use mod_security.Request.State.{
  BodyVariables, ConfigBoolean, Parsed, Request, RequestBodyType, Settings, engine_state,
  false_config_boolean, json_request_body, multi_part_request_body, true_config_boolean,
  unknown_format, with_response, www_form_url_encoded, xml_request_body,
}
use mod_security.Utils.Ctype.{tolower}
use mod_security.Utils.Number.{to_string, to_string_ℤ}

abbrev is_disabled : RuleEngine → Bool
is_disabled disabled_rule_engine = true
is_disabled _ = false

abbrev is_true_boolean : ConfigBoolean → Bool
is_true_boolean true_config_boolean = true
is_true_boolean _ = false

abbrev is_false_boolean : ConfigBoolean → Bool
is_false_boolean false_config_boolean = true
is_false_boolean _ = false

abbrev is_www_form : RequestBodyType → Bool
is_www_form www_form_url_encoded = true
is_www_form _ = false

abbrev is_json : RequestBodyType → Bool
is_json json_request_body = true
is_json _ = false

abbrev is_xml : RequestBodyType → Bool
is_xml xml_request_body = true
is_xml _ = false

-- The body is a form, JSON or XML, and longer than SecRequestBodyNoFilesLimit.
unfoldable pub no_files_limit_exceeded : Option ℕ → RequestBodyType → RequestBodyType → Bytes → Bool
no_files_limit_exceeded limit type processor body =
    (is_www_form type || (is_json processor || is_xml processor))
    && elim limit [ none ↦ false | some n ↦ ltb n (length body) ]

unfoldable pub no_files_message : Bytes
no_files_message = codes "Request body excluding files is bigger than the maximum expected."

-- REQBODY_ERROR, REQBODY_ERROR_MSG and INBOUND_DATA_ERROR of a body over that limit.
unfoldable pub mark_no_files : ℕ → BodyVariables → BodyVariables
unfolding set_value no_files_message
mark_no_files offset b = record b {
  reqbody_error = set_value (codes "1") 0 b.reqbody_error;
  reqbody_error_msg = set_value no_files_message 0 b.reqbody_error_msg;
  inbound_data_error = set_value (codes "1") offset b.inbound_data_error;
}

-- A body that could not be parsed, with the message that says so.
unfoldable pub mark_error : Bytes → ℕ → BodyVariables → BodyVariables
unfolding set_value
mark_error message offset b = record b {
  reqbody_error = set_value (codes "1") offset b.reqbody_error;
  reqbody_error_msg = set_value message offset b.reqbody_error_msg;
  reqbody_processor_error = set_value (codes "1") offset b.reqbody_processor_error;
  reqbody_processor_error_msg = set_value message offset b.reqbody_processor_error_msg;
}

unfoldable pub mark_parsed : ℕ → BodyVariables → BodyVariables
unfolding set_value
mark_parsed offset b = record b {
  reqbody_error = set_value (codes "0") offset b.reqbody_error;
  reqbody_processor_error = set_value (codes "0") offset b.reqbody_processor_error;
}

-- ctl:requestBodyAccess, and SecRequestBodyAccess where it was not run
unfoldable pub body_access : ConfigBoolean → ConfigBoolean → Bool
body_access configured by_action =
    if is_false_boolean configured
    then is_true_boolean by_action
    else not (is_false_boolean by_action)

unfoldable pub full_request_headers : AnchoredSet → Bytes
full_request_headers [] = []
full_request_headers (e ∷ rest) =
    e.entry_key ++ (codes ": " ++ (e.entry_value ++ 10 ∷ full_request_headers rest))

module _ {C : Type 0} where
  -- What is left of a parser's work: its errors or the absence of any.
  unfoldable pub finish_parse : Bytes → Bool → Parsed C → Request C
  unfolding mark_error mark_parsed
  finish_parse what failed p =
      let r = p.parsed_request in
      record r {
        body =
            if failed
            then mark_error (what ++ p.parse_error) r.variable_offset r.body
            else mark_parsed r.variable_offset r.body;
      }

  unfoldable pub process_xml : Settings C → Bool → Request C → Request C
  unfolding finish_parse is_empty
  process_xml settings exceeded r =
      let p = settings.parsers.parse_xml r.body.request_body r in
      let done = finish_parse (codes "XML parsing error: ") (not (is_empty p.parse_error)) p in
      if exceeded then r else done

  unfoldable pub process_json : Settings C → Bool → Request C → Request C
  unfolding finish_parse is_empty
  process_json settings exceeded r =
      let p = settings.parsers.parse_json r.body.request_body r in
      let failed = not (is_empty p.parse_error) && not (is_empty r.body.request_body) in
      let done = finish_parse (codes "JSON parsing error: ") failed p in
      if exceeded then r else done

  unfoldable pub process_multipart : Settings C → Option Bytes → Request C → Request C
  unfolding finish_parse is_empty mark_no_files
  process_multipart settings content_type r =
      let untouched : Parsed C = record {
        parsed_request = r;
        parse_error = [];
        no_files_length = 0;
      } in
      let p : Parsed C = elim content_type [
        | none ↦ untouched
        | some type ↦ settings.parsers.parse_multipart type r.body.request_body r
      ] in
      let r' = p.parsed_request in
      let over : Bool = elim settings.request_body_no_files_limit [
        | none ↦ false
        | some n ↦ ltb n p.no_files_length
      ] in
      if is_empty p.parse_error && over
      then record r' { body = mark_no_files r'.variable_offset r'.body }
      else finish_parse (codes "Multipart parsing error: ") (not (is_empty p.parse_error)) p

  unfoldable pub process_urlencoded : Settings C → Bool → Request C → Request C
  unfolding extract_arguments
  process_urlencoded settings exceeded r =
      let offset = r.variable_offset + 1 in
      let arguments =
        extract_arguments settings.argument_config (codes "POST") r.body.request_body offset
          r.arguments in
      record r { variable_offset = offset; arguments = if exceeded then r.arguments else arguments }

  unfoldable pub process_unknown : Option Bytes → Request C → Request C
  unfolding mark_error
  process_unknown content_type r =
      let error : Bytes = elim content_type [ none ↦ [] | some type ↦ type ] in
      record r {
        body =
            mark_error (codes "Unknown request body processor: " ++ error) r.variable_offset r.body;
      }

  -- The processor goes before the type.
  unfoldable pub process_body : Settings C → Option Bytes → Bool → Request C → Request C
  unfolding process_xml process_json process_multipart process_urlencoded process_unknown
      mark_parsed
  process_body settings content_type exceeded r =
      let by_type : Request C = elim r.request_body_type [
        | multi_part_request_body ↦ process_multipart settings content_type r
        | www_form_url_encoded ↦ process_urlencoded settings exceeded r
        | unknown_format ↦ record r { body = mark_parsed r.variable_offset r.body }
        | json_request_body ↦ process_unknown content_type r
        | xml_request_body ↦ process_unknown content_type r
      ] in
      elim r.request_body_processor [
        | xml_request_body ↦ process_xml settings exceeded r
        | json_request_body ↦ process_json settings exceeded r
        | unknown_format ↦ by_type
        | multi_part_request_body ↦ by_type
        | www_form_url_encoded ↦ by_type
      ]

  -- FULL_REQUEST, FULL_REQUEST_LENGTH, REQUEST_BODY and REQUEST_BODY_LENGTH
  unfoldable pub set_body_variables : Settings C → Request C → BodyVariables
  unfolding full_request_headers set_value set_anchored to_string is_empty
  set_body_variables settings r =
      let b = r.body in
      let o = r.variable_offset in
      let all =
        full_request_headers (reverse (settings.table_order r.headers.request_headers))
        ++ (10 ∷ 10 ∷ b.request_body) in
      let full = record b {
        full_request = set_value all o b.full_request;
        full_request_length = set_value (to_string (length all)) o b.full_request_length;
      } in
      if is_empty b.request_body then full else record full {
        request_body_text = set_value b.request_body o b.request_body_text;
        request_body_length =
            set_anchored (to_string (length b.request_body)) o (length b.request_body)
              b.request_body_length;
      }

  -- The first half of processRequestBody: the errors and the arguments of the body.
  unfoldable pub parse_request_body : Settings C → Request C → Request C
  unfolding resolve_first no_files_limit_exceeded mark_no_files process_body is_empty set_value
  parse_request_body settings r =
      let b = r.body in
      let content_type =
        resolve_first (codes "Content-Type") (settings.table_order r.headers.request_headers) in
      let exceeded =
        no_files_limit_exceeded settings.request_body_no_files_limit r.request_body_type
          r.request_body_processor b.request_body in
      let b' =
        if is_empty b.inbound_data_error.anchored_value
        then record b { inbound_data_error = set_value (codes "0") 0 b.inbound_data_error }
        else b in
      process_body settings content_type exceeded
        (record r { body = if exceeded then mark_no_files r.variable_offset b' else b' })

  unfoldable pub process_request_body :
      Settings C → Transaction (Request C) → Transaction (Request C)
  unfolding engine_state parse_request_body body_access set_body_variables
  process_request_body settings t =
      let r = parse_request_body settings t.store in
      if is_disabled (engine_state settings t)
      then t
      else if body_access settings.sec_request_body_access r.request_body_access
      then evaluate_phase settings.rules request_body_phase
          (record t { store = record r { body = set_body_variables settings r } })
      else record t { store = r }

  -- What processConnection sets before the rules of its phase.
  unfoldable pub set_connection :
      Bytes → ℤ → Bytes → ℤ → Transaction (Request C) → Transaction (Request C)
  unfolding is_empty set_value to_string_ℤ
  set_connection client c_port server s_port t =
      let v = t.store.connection in
      let o = t.store.variable_offset in
      record t {
        who = record (t.who) {
          client_ip_address = client;
          server_ip_address = server;
          request_host_name =
              if is_empty t.who.request_host_name then server else t.who.request_host_name;
        };
        store = record (t.store) {
          connection = record {
            client_port = c_port;
            server_port = s_port;
            remote_host = set_value client o v.remote_host;
            unique_id = set_value t.who.id o v.unique_id;
            remote_addr = set_value client o v.remote_addr;
            server_addr = set_value server o v.server_addr;
            server_port_text = set_value (to_string_ℤ s_port) o v.server_port_text;
            remote_port_text = set_value (to_string_ℤ c_port) o v.remote_port_text;
          };
        };
      }

  unfoldable pub process_connection :
      Settings C → Bytes → ℤ → Bytes → ℤ → Transaction (Request C) → Transaction (Request C)
  unfolding set_connection
  process_connection settings client c_port server s_port t =
      evaluate_phase settings.rules connection_phase (set_connection client c_port server s_port t)

  unfoldable pub process_request_headers :
      Settings C → Transaction (Request C) → Transaction (Request C)
  unfolding engine_state
  process_request_headers settings t =
      if is_disabled (engine_state settings t)
      then t
      else evaluate_phase settings.rules request_headers_phase t

  unfoldable pub set_response_line : ℤ → Bytes → Transaction (Request C) → Transaction (Request C)
  unfolding set_value to_string_ℤ
  set_response_line http_code proto t =
      let r = t.store.response in
      let o = t.store.variable_offset in
      with_response
        (record r {
          http_code_returned = http_code;
          response_status = set_value (to_string_ℤ http_code) o r.response_status;
          response_protocol = set_value proto o r.response_protocol;
        })
        t

  unfoldable pub process_response_headers :
      Settings C → ℤ → Bytes → Transaction (Request C) → Transaction (Request C)
  unfolding engine_state set_response_line
  process_response_headers settings http_code proto t =
      let t' = set_response_line http_code proto t in
      if is_disabled (engine_state settings t')
      then t'
      else evaluate_phase settings.rules response_headers_phase t'

  -- RESPONSE_BODY and RESPONSE_CONTENT_LENGTH
  unfoldable pub set_response_body : Transaction (Request C) → Transaction (Request C)
  unfolding is_empty set_value to_string
  set_response_body t =
      let r = t.store.response in
      let o = t.store.variable_offset in
      with_response
        (record r {
          outbound_data_error =
              if is_empty r.outbound_data_error.anchored_value
              then set_value (codes "0") o r.outbound_data_error
              else r.outbound_data_error;
          response_body_text = set_value r.response_body o r.response_body_text;
          response_content_length =
              set_value (to_string (length r.response_body)) o r.response_content_length;
        })
        t

  unfoldable pub process_response_body :
      Settings C → Transaction (Request C) → Transaction (Request C)
  unfolding engine_state is_inspected tolower set_response_body
  process_response_body settings t =
      let content_type = map tolower t.store.response.response_content_type.anchored_value in
      if is_disabled (engine_state settings t)
      then t
      else if not (is_true_boolean settings.sec_response_body_access)
      then t
      else if not (is_inspected settings.response_body_types content_type)
          && settings.response_body_types_set
      then t
      else evaluate_phase settings.rules response_body_phase (set_response_body t)

  unfoldable pub update_status_code : ℤ → Transaction (Request C) → Transaction (Request C)
  unfolding set_value to_string_ℤ
  update_status_code code t =
      let r = t.store.response in
      with_response
        (record r {
          http_code_returned = code;
          response_status = set_value (to_string_ℤ code) t.store.variable_offset r.response_status;
        })
        t

  unfoldable pub set_request_host_name : Bytes → Transaction (Request C) → Transaction (Request C)
  unfolding is_empty
  set_request_host_name hostname t =
      if is_empty hostname
      then t
      else record t { who = record (t.who) { request_host_name = hostname } }

  -- The audit log, behind the rules of the phase.
  unfoldable pub log_transaction : Settings C → Transaction (Request C) → Transaction (Request C)
  unfolding get_parts modify_parts save_if_relevant
  log_transaction settings t = elim settings.audit_log [
    | none ↦ t
    | some a ↦ (save_if_relevant a (modify_parts t.store.audit_log_modifier (get_parts a)) t).0
  ]

  unfoldable pub process_logging : Settings C → Transaction (Request C) → Transaction (Request C)
  unfolding engine_state log_transaction
  process_logging settings t =
      if is_disabled (engine_state settings t)
      then t
      else log_transaction settings (evaluate_phase settings.rules logging_phase t)
