-- ===== src/Engine/Message.antt =====
-- The text of a message, of src/rule_message.cc.
use mod_security.Engine.State.{Identity, RuleMessage}
use mod_security.Prelude.{Bool, List, Option, [], false, if◌then◌else◌, none, some, true, ◌++◌, ◌∷◌}
use mod_security.Prelude.Bytes.{Bytes}
use mod_security.Prelude.Int.{sub_ℕ, ℤ}
use mod_security.Prelude.Text.{codes}
use mod_security.Utils.Number.{to_string, to_string_ℤ}
use mod_security.Utils.Text.{limit_to, to_hex_if_needed}

-- one ` [name "value"]`
unfoldable pub detail : Bytes → Bytes → Bytes
detail name value = codes " [" ++ (name ++ (codes " \"" ++ (value ++ codes "\"]")))

unfoldable pub tag_details : List Bytes → Bytes
unfolding detail to_hex_if_needed
tag_details [] = []
tag_details (a ∷ rest) = detail (codes "tag") (to_hex_if_needed true a) ++ tag_details rest

-- _details
unfoldable pub details : Identity → RuleMessage → Bytes
unfolding detail tag_details to_string to_string_ℤ to_hex_if_needed limit_to
details who rm =
    detail (codes "file") rm.rule.file_name
    ++ (detail (codes "line") (to_string rm.rule.line_number)
        ++ (detail (codes "id") (to_string_ℤ rm.rule.rule_id)
            ++ (detail (codes "rev") (to_hex_if_needed true rm.rule.rev)
                ++ (detail (codes "msg") rm.message
                    ++ (detail (codes "data") (to_hex_if_needed true (limit_to 200 rm.text_data))
                        ++ (detail (codes "severity") (to_string_ℤ rm.severity)
                            ++ (detail (codes "ver") (to_hex_if_needed true rm.rule.ver)
                                ++ (detail (codes "maturity") (to_string_ℤ rm.rule.maturity)
                                    ++ (detail (codes "accuracy") (to_string_ℤ rm.rule.accuracy)
                                        ++ (tag_details rm.tags
                                            ++ (detail (codes "hostname") who.request_host_name
                                                ++ (detail (codes "uri")
                                                      (limit_to 200 who.uri_no_query_string_decoded)
                                                    ++ (detail (codes "unique_id") who.id
                                                        ++ detail (codes "ref")
                                                            (limit_to 200 rm.reference))))))))))))))

-- _errorLogTail
unfoldable pub error_log_tail : Identity → Bytes
unfolding detail limit_to
error_log_tail who =
    codes "[hostname \""
    ++ (who.server_ip_address
        ++ (codes "\"]"
            ++ (detail (codes "uri") (limit_to 200 who.uri_no_query_string_decoded)
                ++ detail (codes "unique_id") who.id)))

-- `log`, with the two properties as flags and the response code, where one is given. The phase is
-- that of `RuleMessage::getPhase`, one less than that of the rule.
unfoldable pub log_text : Bool → Bool → Option ℤ → Identity → RuleMessage → Bytes
unfolding details error_log_tail to_string_ℤ to_hex_if_needed
log_text client_info error_log_tail_info code who rm =
    let client =
      (if client_info then codes "[client " ++ (who.client_ip_address ++ codes "] ") else []) in
    let denied =
      codes "ModSecurity: Access denied with code "
      ++ ((elim code [ none ↦ codes "%d" | some n ↦ to_string_ℤ n ])
          ++ (codes " (phase " ++ (to_string_ℤ (sub_ℕ rm.rule.phase 1) ++ codes "). "))) in
    let outcome = (if rm.is_disruptive then denied else codes "ModSecurity: Warning. ") in
    let ending = (if error_log_tail_info then b' ' ∷ error_log_tail who else []) in
    to_hex_if_needed false (client ++ (outcome ++ (rm.match_text ++ (details who rm ++ ending))))

-- `log` with ClientLogMessageInfo alone, which the disruptive actions call
unfoldable pub client_log : Identity → RuleMessage → Bytes
unfolding log_text
client_log who rm = log_text true false none who rm
