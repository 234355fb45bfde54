-- ===== src/Engine/RulesSet.antt =====
-- RulesSet::evaluate (src/rules_set.cc): the rules of one phase.
use mod_security.Engine.Evaluate.{evaluate}
use mod_security.Engine.Exceptions.{RulesExceptions, contains_id}
use mod_security.Engine.Rule.{
  Rule, RuleWithActions, RulesConfig, RulesSet, contains_msg, contains_tag, marker_rule, script,
  unconditional, with_operator,
}
use mod_security.Engine.State.{
  AllowType, Transaction, from_now_on_allow_type, is_inside_a_marker, is_none_allow_type,
  logging_phase, none_allow_type, number_of_phases, request_allow_type, request_body_phase,
}
use mod_security.Prelude.{
  Bool, List, Option, [], false, if◌then◌else◌, leb, none, not, some, true, ℕ, ◌&&◌, ◌==◌, ◌||◌,
  ◌∷◌,
}
use mod_security.Prelude.Bytes.{Bytes}
use mod_security.Prelude.Int.{ltb_ℤ, pos, ◌-ℤ◌}

-- whether an `allow` passes over the whole phase
unfoldable pub phase_allowed : AllowType → ℕ → Bool
phase_allowed from_now_on_allow_type phase = not (phase == logging_phase)
phase_allowed request_allow_type phase = leb phase request_body_phase
phase_allowed _ phase = false

module _ {S : Type 0} where
  -- cleanMatchedVars
  unfoldable pub clean_matched_vars : Transaction S → Transaction S
  clean_matched_vars t = record t {
    matched_var = none;
    matched_vars = [];
    matched_var_name = none;
    matched_vars_names = [];
  }

  -- whether a tag, or a message, of a list is the rule's
  unfoldable pub any_tag : RuleWithActions S → List Bytes → Transaction S → Bool
  any_tag r [] t = false
  any_tag r (z ∷ zs) t = if contains_tag r z t then true else any_tag r zs t

  unfoldable pub any_msg : RuleWithActions S → List Bytes → Transaction S → Bool
  any_msg r [] t = false
  any_msg r (z ∷ zs) t = if contains_msg r z t then true else any_msg r zs t

  -- the four tests that pass over a rule: SecRuleRemoveById, SecRuleRemoveByMsg,
  -- SecRuleRemoveByTag and ctl:ruleRemoveByTag
  unfoldable pub is_removed : RulesExceptions S → RuleWithActions S → Transaction S → Bool
  unfolding contains_id any_tag any_msg
  is_removed e r t =
      contains_id e r.info.rule_id
      || (any_msg r e.remove_rule_by_msg t
          || (any_tag r e.remove_rule_by_tag t || any_tag r t.rule_remove_by_tag t))

  -- `dynamic_cast<RuleWithActions *>`
  unfoldable pub rule_with_actions : Rule S → Option (RuleWithActions S)
  rule_with_actions (marker_rule name) = none
  rule_with_actions (with_operator r children) = some r.actions
  rule_with_actions (unconditional r) = some r
  rule_with_actions (script r lua) = some r

  unfoldable pub rule_is_removed : RulesExceptions S → Rule S → Transaction S → Bool
  unfolding rule_with_actions is_removed
  rule_is_removed e rule t = elim (rule_with_actions rule) [
    | none ↦ false
    | some r ↦ is_removed e r t
  ]

  unfoldable pub is_marker : Rule S → Bool
  is_marker (marker_rule name) = true
  is_marker _ = false

  -- What the loop does with a rule: pass over it, let it run as a marker, count it as skipped, or
  -- evaluate it.
  unfoldable pub step_rule : RulesConfig S → Rule S → Transaction S → Transaction S × Bool
  unfolding is_inside_a_marker is_marker is_none_allow_type rule_is_removed evaluate
      clean_matched_vars
  step_rule config rule t =
      let evaluated = clean_matched_vars (evaluate config rule t) in
      if is_inside_a_marker t && not (is_marker rule)
      then (t, false)
      else if is_marker rule
      then (evaluate config rule t, false)
      else if ltb_ℤ (pos 0) t.skip_next
      then (record t { skip_next = t.skip_next -ℤ pos 1 }, false)
      else if not (is_none_allow_type t.allow_type)
      then (t, false)
      else if rule_is_removed config.exceptions rule t
      then (t, false)
      else (evaluated, evaluated.it.disruptive)

  -- The loop; the flag of a step says that the phase is left.
  unfoldable pub run_rules : RulesConfig S → List (Rule S) → Transaction S → Transaction S
  unfolding step_rule
  run_rules config [] t = t
  run_rules config (rule ∷ rest) t =
      let (t', leave) = step_rule config rule t in
      let later = run_rules config rest t' in if leave then t' else later

  -- RulesSet::evaluate
  unfoldable pub evaluate_phase : RulesSet S → ℕ → Transaction S → Transaction S
  unfolding phase_allowed run_rules
  evaluate_phase rules phase t =
      if leb number_of_phases phase
      then t
      else if phase_allowed t.allow_type phase
      then t
      else run_rules rules.config (rules.rules_at_phase phase)
          (record t { allow_type = none_allow_type })
