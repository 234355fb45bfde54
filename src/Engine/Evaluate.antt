-- ===== src/Engine/Evaluate.antt =====
-- How a rule is evaluated: RuleWithOperator::evaluate (src/rule_with_operator.cc), RuleUnconditional
-- (src/rule_unconditional.cc), RuleScript (src/rule_script.cc) and RuleMarker.
use mod_security.Engine.Exceptions.{in_numbers, in_ranges}
use mod_security.Engine.Execute.{execute_after_full_match, execute_independent, perform_logging}
use mod_security.Engine.Rule.{
  Operator, Rule, RuleWithActions, RuleWithOperator, RulesConfig, marker_rule, script,
  unconditional, with_operator,
}
use mod_security.Engine.State.{RuleMessage, Transaction, new_message, remove_marker}
use mod_security.Engine.Targets.{get_exclusions, get_final_vars, value_excluded}
use mod_security.Engine.Transform.{TransformationResult, execute_transformations}
use mod_security.Engine.Variable.{Variable, VariableValue, expand, origins_text}
use mod_security.Prelude.{
  Bool, List, Option, [], false, if◌then◌else◌, length, none, not, some, true, ◌++◌, ◌==◌, ◌||◌,
  ◌∷◌,
}
use mod_security.Prelude.Bytes.{Bytes, str_eq}
use mod_security.Prelude.Int.{ℤ}
use mod_security.Prelude.Text.{codes}
use mod_security.Utils.Text.{limit_to, to_hex_if_needed}

module _ {S : Type 0} where
  -- updateMatchedVars
  unfoldable pub update_matched_vars : Bytes → Bytes → Transaction S → Transaction S
  update_matched_vars key value t = record t {
    matched_var = some value;
    matched_var_name = some key;
    matched_vars = t.matched_vars ++ (key, value) ∷ [];
    matched_vars_names = t.matched_vars_names ++ (key, key) ∷ [];
  }

  -- Operator::resolveMatchMessage
  unfoldable pub resolve_match_message : Operator S → Transaction S → Bytes → Bytes → Bytes
  unfolding limit_to to_hex_if_needed expand
  resolve_match_message o t key value =
      let p = (if o.could_contain_macro then expand o.param_string t else o.param) in
      if length o.match_message == 0
      then codes "Matched \"Operator `"
        ++ (o.op
            ++ (codes "' with parameter `"
                ++ (limit_to 200 p
                    ++ (codes "' against variable `"
                        ++ (to_hex_if_needed false key
                            ++ (codes "' (Value: `"
                                ++ (limit_to 100 (to_hex_if_needed false value)
                                    ++ codes "' )")))))))
      else o.match_message

  -- Operator::evaluateInternal, on the transaction and the message
  unfoldable pub evaluate_internal :
      RuleWithOperator S → Bytes → Transaction S × RuleMessage → Bool × Transaction S × RuleMessage
  evaluate_internal r value (t, m) =
      let res = r.operator.evaluate_operator t r.contains_capture_action value in
      (
        if r.operator.negation then not res.is_match else res.is_match,
        record t { store = res.store_after; matched = t.matched ++ res.matched_after },
        record m { reference = m.reference ++ res.reference_added },
      )

-- The local variables of RuleWithOperator::evaluate, with the transaction and the message.
pub record Matching (S : Type 0) : Type 0 where
  pub trans : Transaction S
  pub rule_message : RuleMessage
  pub contains_block : Bool
  pub global_ret : Bool

module _ {S : Type 0} (config : RulesConfig S) where
  -- what is done where the operator matches
  unfoldable pub on_match :
      RuleWithOperator S → VariableValue → TransformationResult → Matching S → Matching S
  unfolding resolve_match_message origins_text update_matched_vars execute_independent
      perform_logging
  on_match r v value_temp s =
      let m' = record (s.rule_message) {
        match_text = resolve_match_message r.operator s.trans v.key_with_collection v.value;
        reference = s.rule_message.reference ++ (origins_text v.origins ++ value_temp.path_text);
      } in
      let t' = update_matched_vars v.key_with_collection value_temp.transformed s.trans in
      let (block', t'', m'') = execute_independent config r.actions s.contains_block (t', m') in
      let (t₃, m₃) = perform_logging r.actions false false (t'', m'') in
      record { trans = t₃; rule_message = m₃; contains_block = block'; global_ret = true }

  -- the loop over the transformed values
  unfoldable pub test_values :
      RuleWithOperator S → VariableValue → List TransformationResult → Matching S → Matching S
  unfolding evaluate_internal on_match
  test_values r v [] s = s
  test_values r v (value_temp ∷ rest) s =
      let (ret, t', m') = evaluate_internal r value_temp.transformed (s.trans, s.rule_message) in
      let s' = record s { trans = t'; rule_message = m' } in
      test_values r v rest (if ret then on_match r v value_temp s' else s')

  -- the loop over the values of one variable
  unfoldable pub test_variable :
      RuleWithOperator S → List (Variable S) → List VariableValue → Matching S → Matching S
  unfolding value_excluded execute_transformations test_values
  test_variable r excluded [] s = s
  test_variable r excluded (v ∷ rest) s = test_variable r excluded rest (
      if value_excluded r.actions excluded s.trans v
      then s
      else test_values r v (execute_transformations config r.actions s.trans v.value) s)

  -- the loop over the variables
  unfoldable pub test_variables :
      RuleWithOperator S → List (Variable S) → List (Variable S) → Matching S → Matching S
  unfolding test_variable
  test_variables r excluded [] s = s
  test_variables r excluded (var ∷ rest) s =
      test_variables r excluded rest (test_variable r excluded (var.evaluate_variable s.trans) s)

  -- whether a ctl:ruleRemoveById takes the rule out
  unfoldable pub removed_by_id : ℤ → Transaction S → Bool
  unfolding in_numbers in_ranges
  removed_by_id rule_id t =
      in_numbers rule_id t.rule_remove_by_id || in_ranges rule_id t.rule_remove_by_id_range

  -- up to the end of the loops: whether a value matched, and the state behind them
  unfoldable pub match_rule : RuleWithOperator S → Transaction S × RuleMessage → Matching S
  unfolding test_variables get_final_vars get_exclusions
  match_rule r (t, m) =
      test_variables r (get_exclusions config.exceptions r.actions t)
        (get_final_vars config.exceptions r t)
        (record {
          trans = t;
          rule_message = m;
          contains_block = r.contains_static_block_action;
          global_ret = false;
        })

  -- `end_exec`
  unfoldable pub end_exec : RuleWithOperator S → Matching S → Bool × Transaction S × RuleMessage
  unfolding execute_after_full_match perform_logging
  end_exec r s =
      let (t, m) =
        execute_after_full_match config r.actions s.contains_block (s.trans, s.rule_message) in
      let (t', m') = perform_logging r.actions true true (t, m) in (true, t', m')

  -- `end_clean`
  unfoldable pub end_clean : Matching S → Bool × Transaction S × RuleMessage
  end_clean s = (false, s.trans, s.rule_message)

  -- what follows the loops; `child` is the result of the chained rule, if there is one
  unfoldable pub finish_rule :
      RuleWithOperator S
      → Matching S
      → Option (Bool × Transaction S × RuleMessage)
      → Bool × Transaction S × RuleMessage
  unfolding end_exec end_clean
  finish_rule r s none =
      if not s.global_ret
      then end_clean s
      else if not r.is_chained
      then end_exec r s
      else end_clean s
  finish_rule r s (some (recursive_ret, t, m)) =
      let s' = record s { trans = t; rule_message = m } in
      if not s.global_ret
      then end_clean s
      else if not r.is_chained
      then end_exec r s
      else if recursive_ret
      then end_exec r s'
      else end_clean s'

  -- RuleWithOperator::evaluate, on a rule and the rules chained to it
  unfoldable pub evaluate_rule :
      RuleWithOperator S
      → List (RuleWithOperator S)
      → Transaction S × RuleMessage
      → Bool × Transaction S × RuleMessage
  unfolding removed_by_id match_rule finish_rule
  evaluate_rule r [] (t, m) =
      let t' = record t { matched = [] } in
      let s = match_rule r (t', m) in
      if removed_by_id r.info.rule_id t' then (true, t', m) else finish_rule r s none
  evaluate_rule r (child ∷ rest) (t, m) =
      let t' = record t { matched = [] } in
      let s = match_rule r (t', m) in
      let chained = evaluate_rule child rest (s.trans, s.rule_message) in
      if removed_by_id r.info.rule_id t' then (true, t', m) else finish_rule r s (some chained)

  -- RuleUnconditional::evaluate
  unfoldable pub evaluate_unconditional :
      RuleWithActions S → Transaction S × RuleMessage → Bool × Transaction S × RuleMessage
  unfolding execute_independent execute_after_full_match perform_logging
  evaluate_unconditional r (t, m) =
      let (contains_block, t', m') =
        execute_independent config r false (record t { matched = [] }, m) in
      let (t'', m'') = execute_after_full_match config r contains_block (t', m') in
      let (t₃, m₃) = perform_logging r true false (t'', m'') in (true, t₃, m₃)

  -- RuleScript::evaluate
  unfoldable pub evaluate_script :
      RuleWithActions S
      → (Transaction S → S × Bool)
      → Transaction S × RuleMessage
      → Bool × Transaction S × RuleMessage
  unfolding execute_independent execute_after_full_match
  evaluate_script r lua (t, m) =
      let (contains_disruptive, t', m') = execute_independent config r false (t, m) in
      let (store', ret) = lua t' in
      let ran = record t' { store = store' } in
      let (t'', m'') = execute_after_full_match config r contains_disruptive (ran, m') in
      if ret then (true, t'', m'') else (false, ran, m')

  -- RuleMarker::evaluate
  unfoldable pub evaluate_marker : Bytes → Transaction S → Transaction S
  unfolding remove_marker
  evaluate_marker name t = elim t.marker [
    | none ↦ t
    | some current ↦ if str_eq current name then remove_marker t else t
  ]

  -- Rule::evaluate(Transaction *), with a new message where the rule has actions
  unfoldable pub evaluate : Rule S → Transaction S → Transaction S
  unfolding evaluate_rule evaluate_unconditional evaluate_script evaluate_marker new_message
  evaluate (marker_rule name) t = evaluate_marker name t
  evaluate (with_operator r children) t = (evaluate_rule r children (t, new_message r.info)).1
  evaluate (unconditional r) t = (evaluate_unconditional r (t, new_message r.info)).1
  evaluate (script r lua) t = (evaluate_script r lua (t, new_message r.info)).1
