-- ===== src/Engine.antt =====
-- The rule engine: src/rules_set.cc, src/rule_with_operator.cc, src/rule_with_actions.cc,
-- src/rule_unconditional.cc, src/rule_script.cc, src/rules_exceptions.cc, src/rule_message.cc,
-- the actions of src/actions and headers/modsecurity.
pub mod Intervention
pub mod State
pub mod Message
pub mod Variable
pub mod Action
pub mod Exceptions
pub mod Rule
pub mod Execute
pub mod Transform
pub mod Targets
pub mod Evaluate
pub mod RulesSet
pub mod Flow
pub mod Tests
pub mod Verdict
pub mod Matching
pub mod Chain
pub mod Pipeline
pub mod Blocking
pub mod Detection
