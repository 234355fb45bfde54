-- ===== src/Engine/Matching.antt =====
-- The loops of RuleWithOperator::evaluate decide nothing: what they run is setvar, severity, logdata,
-- msg and tag actions.
use mod_security.Engine.Detection.{execute_independent-SameControl}
use mod_security.Engine.Evaluate.{
  Matching, evaluate_internal, match_rule, on_match, resolve_match_message, test_values,
  test_variable, test_variables, update_matched_vars,
}
use mod_security.Engine.Execute.{execute_independent}
use mod_security.Engine.Rule.{RuleWithOperator, RulesConfig}
use mod_security.Engine.State.{RuleMessage, Transaction}
use mod_security.Engine.Targets.{get_exclusions, get_final_vars, value_excluded}
use mod_security.Engine.Transform.{TransformationResult, execute_transformations}
use mod_security.Engine.Variable.{Variable, VariableValue, origins_text}
use mod_security.Engine.Verdict.{
  SameControl, SameControl-refl, SameControl-trans, perform_logging-SameControl,
}
use mod_security.Prelude.{List, [], arith, false, if_ind, if◌then◌else◌, ◌++◌, ◌∷◌}

module _ {S : Type 0} (config : RulesConfig S) (r : RuleWithOperator S) where
  on_match-SameControl :
      (v : VariableValue) (x : TransformationResult) (s : Matching S)
      → SameControl s.trans (on_match config r v x s).trans
  unfolding on_match
  on_match-SameControl v x s =
      let m' = record (s.rule_message) {
        match_text = resolve_match_message r.operator s.trans v.key_with_collection v.value;
        reference = s.rule_message.reference ++ (origins_text v.origins ++ x.path_text);
      } in
      let t' = update_matched_vars v.key_with_collection x.transformed s.trans in
      let s₁ = execute_independent config r.actions s.contains_block (t', m') in
      let h₀ : SameControl s.trans t' = unfold update_matched_vars in ground arith in
      SameControl-trans h₀ (
        SameControl-trans
          (execute_independent-SameControl config r.actions s.contains_block (t', m'))
          (perform_logging-SameControl r.actions false false (s₁.1, s₁.2)))

  test_values-SameControl :
      (v : VariableValue) (l : List TransformationResult) (s : Matching S)
      → SameControl s.trans (test_values config r v l s).trans
  unfolding test_values
  test_values-SameControl v [] s = SameControl-refl s.trans
  test_values-SameControl v (x ∷ rest) s =
      let res = evaluate_internal r x.transformed (s.trans, s.rule_message) in
      let s' = record s { trans = res.1; rule_message = res.2 } in
      let h : SameControl s.trans s'.trans = unfold evaluate_internal in ground arith in
      let next = (if res.0 then on_match config r v x s' else s') in
      SameControl-trans
        (if_ind (λ (z : Matching S). SameControl s.trans z.trans) res.0
          (SameControl-trans h (on_match-SameControl v x s')) h)
        (test_values-SameControl v rest next)

  test_variable-SameControl :
      (x : List (Variable S)) (l : List VariableValue) (s : Matching S)
      → SameControl s.trans (test_variable config r x l s).trans
  unfolding test_variable
  test_variable-SameControl x [] s = SameControl-refl s.trans
  test_variable-SameControl x (v ∷ rest) s =
      let l = execute_transformations config r.actions s.trans v.value in
      let b = value_excluded r.actions x s.trans v in
      let next = (if b then s else test_values config r v l s) in
      SameControl-trans
        (if_ind (λ (z : Matching S). SameControl s.trans z.trans) b (SameControl-refl s.trans)
          (test_values-SameControl v l s))
        (test_variable-SameControl x rest next)

  test_variables-SameControl :
      (x l : List (Variable S)) (s : Matching S)
      → SameControl s.trans (test_variables config r x l s).trans
  unfolding test_variables
  test_variables-SameControl x [] s = SameControl-refl s.trans
  test_variables-SameControl x (v ∷ rest) s =
      let values = v.evaluate_variable s.trans in
      SameControl-trans (test_variable-SameControl x values s)
        (test_variables-SameControl x rest (test_variable config r x values s))

  pub match_rule-SameControl :
      (s : Transaction S × RuleMessage) → SameControl s.0 (match_rule config r s).trans
  unfolding match_rule
  match_rule-SameControl s =
      test_variables-SameControl (get_exclusions config.exceptions r.actions s.0)
        (get_final_vars config.exceptions r s.0)
        (record {
          trans = s.0;
          rule_message = s.1;
          contains_block = r.contains_static_block_action;
          global_ret = false;
        })
