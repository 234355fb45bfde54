-- ===== src/Lib.antt =====
-- ModSecurity is a web application firewall as a library. A connector gives a Transaction the parts
-- of a request and of its response; at each phase RulesSet::evaluate (src/rules_set.cc) goes through
-- the rules of the phase. A rule (src/rule_with_operator.cc) takes the values of its variables, puts
-- each through its transformations (src/actions/transformations), tests it with its operator, and,
-- where it or the whole chain matches, runs actions (src/rule_with_actions.cc), of which some set the
-- intervention that the connector asks for. This library models the rule engine, the
-- transformations, the calls of a connector on a transaction, the collections in memory, the
-- loading of rules, and some operators.
--
-- Engine, from the rules of a phase to the intervention:
--  - Intervention: ModSecurityIntervention, of headers/modsecurity/intervention.h.
--  - State, Message: the fields of Transaction that the engine reads or writes, the markers,
--    getRuleEngineState, and RuleMessage with its log text (headers/modsecurity/transaction.h,
--    src/rule_message.cc). What the engine does not read is one value of any type, `store`.
--  - Variable: VariableValue, Variable, the exclusion of variables and RunTimeString
--    (src/variables/variable.h, src/run_time_string.cc). What a variable evaluates to is a function of
--    the transaction, a field of the record.
--  - Action: the actions with their kinds and `evaluate` (src/actions). An action that writes nothing
--    but collections or the environment is one with a function on `store`.
--  - Exceptions: SecRuleRemoveBy*, SecRuleUpdateTargetBy* and SecRuleUpdateActionById
--    (src/rules_exceptions.cc), Exceptions/Load the parsing of numbers and ranges.
--  - Rule: RuleWithActions with its constructor, RuleWithOperator, operators as functions.
--  - Execute: executeAction, the actions of each match and of a full match, performLogging.
--  - Transform: executeTransformations (src/rule_with_actions.cc).
--  - Targets, Evaluate: RuleWithOperator::evaluate (src/rule_with_operator.cc), with SecAction,
--    SecRuleScript and SecMarker. `evaluate_rule` takes the rest of the chain as a list.
--  - RulesSet: RulesSet::evaluate (src/rules_set.cc), one step per rule.
--  - The proofs are in Verdict, Matching, Detection, Blocking, Chain, Flow, Pipeline and
--    Exceptions/Contains.
-- Request, of src/transaction.cc, on the transaction of Engine, so that what a rule decides there is what
-- a connector gets here; its `store` is the record Request of State:
--  - Anchored: AnchoredVariable and AnchoredSetVariable (src/anchored_variable.cc,
--    src/anchored_set_variable.cc). A set is a list in the order of insertion; where the order of the hash
--    table shows, it is a function of the settings.
--  - State: the fields for the request and the response, and the settings of the rules. The body parsers
--    (src/request_body_processor) are functions of the settings.
--  - Uri: processURI, and Uri/Anchors its proof. Headers: addRequestHeader, addResponseHeader and the
--    cookies, with their proof in Headers/CookiePairs.
--  - Body: appendRequestBody and appendResponseBody. A limit is a number, 0 for none; the size of a
--    body, an `int`, is exact below 2^31 bytes.
--  - Arguments: extractArguments and addArgument. ARGS is a list in the order of insertion.
--  - AuditLog: the parts and the relevance of the audit log (src/audit_log/audit_log.cc).
--  - Phases: processConnection, processRequestHeaders, processRequestBody, processResponseHeaders,
--    processResponseBody, processLogging, updateStatusCode and setRequestHostName.
--  - Answer: intervention(). Calls: any sequence of these calls, and what holds of all of them in
--    Calls/Quiet and Calls/Off.
-- Collection, at times that are arguments, and one call at a time (the locks are not in the model):
--  - Data: CollectionData and its text (src/collection/backend/collection_data.cc). A time is in seconds.
--  - InMemory: InMemoryPerProcess (src/collection/backend/in_memory-per_process.cc), the table as a list in
--    its order; InMemory/Operations has what a collection promises, a map from keys to values, and
--    InMemory/Lookup, InMemory/Unique and InMemory/Operations/Refinement the proofs.
--  - SetVar: SetVar::evaluate (src/actions/set_var.cc). An overflow of `int` is no result.
-- Config, from directives to the rules of each phase, before any transaction:
--  - Phases: headers/modsecurity/rules.h and src/rules_set_phases.cc. The sorted vector of identifiers that
--    is searched by halving is a list with its membership test.
--  - Properties: RulesSetProperties, its constructor and mergeProperties
--    (headers/modsecurity/rules_set_properties.h).
--  - Driver: src/parser/driver.cc on the directives that the grammar makes, and RulesSet::load and merge
--    (src/rules_set.cc). m_lastRule is a phase and a position in it. The proofs are in Identifiers, Loading,
--    Chains, Merge and Accepted.
-- Transformation, over strings as lists of bytes, each with the value and the answer of `transform`:
--  - Scan: the loop that all decoders share, as a step function from the bytes ahead to what is
--    written and how far the loop moves on.
--  - Url (src/utils/decode.cc, url_encode.cc), Bytewise, Hex, Comments, Whitespace, Escapes: the
--    transformations; Classes: their dispatch; Path: normalisePath and normalisePathWin
--    (normalise_path.cc), which works in the buffer with two indices. Their child modules, Changed and Length hold the proofs.
-- Operators, of src/operators, on the expanded parameter, each with its answer and what it logs:
--  - Strings: beginsWith, endsWith, contains, within, streq; UrlEncoding: validateUrlEncoding;
--    ByteRange: validateByteRange, with its table of 32 bytes; Utf8: validateUtf8Encoding; Numbers: eq, ge,
--    gt, le, lt and strmatch.
-- Utils: the string helpers of src/utils/string.h and the C library's character classes and number
-- conversions. Prelude: lists, Boolean tests and integers over the native numbers, and byte strings.
--
-- Loops over a string or a list are structural recursions, so they end for every input; a loop that
-- moves on by more than one byte counts the bytes that are still to be passed over. The printing
-- of decimal numbers runs on fuel, which is the number itself and so enough; the loop of normalisePath runs
-- on fuel, the length of the value, which path_loop-ends shows to be enough. Identifiers and
-- counters are integers without a bound, and the seconds of setExpiry are not negative. To evaluate a
-- variable changes nothing, where a look-up in a collection also deletes what has expired there; bytes are numbers, below 256 where a theorem needs it.
--
-- Not modelled: the other operators, the body parsers, the parser of the rule language (generated by
-- Bison and Flex), the writers of the audit log and the text of a record, the
-- collections of LMDB, base64, htmlEntityDecode, urlDecodeUni, utf8toUnicode, and what
-- calls other libraries (PCRE, libinjection, YAJL, libxml2, Lua, LMDB, mbedtls) or the operating system.
-- Debug log lines are left out, since nothing reads them.
pub mod Prelude
pub mod Utils
pub mod Engine
pub mod Collection
pub mod Config
pub mod Operators
pub mod Request
pub mod Transformation
