-- ===== src/Config.antt =====
-- Reading of a configuration into a rule set: headers/modsecurity/rules.h, src/rules_set_phases.cc,
-- src/parser/driver.cc, headers/modsecurity/rules_set_properties.h and the loading in
-- src/rules_set.cc.
pub mod Phases
pub mod Properties
pub mod Driver
pub mod Identifiers
pub mod Merge
pub mod Loading
pub mod Chains
pub mod Accepted
mod Tests
