-- ===== src/Engine/Targets.antt =====
-- Which variables and values a rule looks at: getVariablesExceptions, getFinalVars and the tests of
-- the loop over the values, of src/rule_with_operator.cc.
use mod_security.Engine.Exceptions.{RulesExceptions, TargetUpdate, addition, exclusion}
use mod_security.Engine.Rule.{RuleWithActions, RuleWithOperator, contains_msg, contains_tag}
use mod_security.Engine.State.{Transaction}
use mod_security.Engine.Variable.{Variable, VariableValue, contains_value, contains_variable}
use mod_security.Prelude.{Bool, List, [], false, if◌then◌else◌, true, ◌&&◌, ◌++◌, ◌==◌, ◌||◌, ◌∷◌}
use mod_security.Prelude.Bytes.{Bytes, str_eq}
use mod_security.Prelude.Int.{ℤ, ◌==ℤ◌}
use mod_security.Utils.Ctype.{tolower}

-- equality of two names up to the case of letters, as `std::equal` with `std::tolower` tests it
unfoldable pub eq_ignore_case : Bytes → Bytes → Bool
unfolding tolower
eq_ignore_case [] [] = true
eq_ignore_case (x ∷ xs) (y ∷ ys) = tolower x == tolower y && eq_ignore_case xs ys
eq_ignore_case _ _ = false

-- ctl:ruleRemoveTargetById on a whole variable; case is ignored
unfoldable pub target_removed_by_id : ℤ → Bytes → List (ℤ × Bytes) → Bool
unfolding eq_ignore_case
target_removed_by_id rule_id full_name [] = false
target_removed_by_id rule_id full_name ((n, target) ∷ rest) =
    n ==ℤ rule_id && eq_ignore_case target full_name || target_removed_by_id rule_id full_name rest

-- the same on a value; here case is not ignored
unfoldable pub value_removed_by_id : ℤ → Bytes → List (ℤ × Bytes) → Bool
value_removed_by_id rule_id key [] = false
value_removed_by_id rule_id key ((n, target) ∷ rest) =
    n ==ℤ rule_id && str_eq target key || value_removed_by_id rule_id key rest

module _ {S : Type 0} where
  -- getVariablesExceptionsHelper: the targets whose key is found by `matches`, the exclusions and
  -- the additions apart
  unfoldable pub exclusions_for {ℓ} :
      {K : Type ℓ} → (K → Bool) → List (K × TargetUpdate S) → List (Variable S)
  exclusions_for matches [] = []
  exclusions_for matches ((x, exclusion v) ∷ rest) =
      let others = exclusions_for matches rest in if matches x then v ∷ others else others
  exclusions_for matches ((x, addition v) ∷ rest) = exclusions_for matches rest

  unfoldable pub additions_for {ℓ} :
      {K : Type ℓ} → (K → Bool) → List (K × TargetUpdate S) → List (Variable S)
  additions_for matches [] = []
  additions_for matches ((x, exclusion v) ∷ rest) = additions_for matches rest
  additions_for matches ((x, addition v) ∷ rest) =
      let others = additions_for matches rest in if matches x then v ∷ others else others

  -- getVariablesExceptions, its two results apart
  unfoldable pub get_exclusions :
      RulesExceptions S → RuleWithActions S → Transaction S → List (Variable S)
  unfolding exclusions_for
  get_exclusions e r t =
      exclusions_for (λ name. contains_tag r name t) e.variable_update_target_by_tag
      ++ (exclusions_for (λ name. contains_msg r name t) e.variable_update_target_by_msg
          ++ exclusions_for (λ n. r.info.rule_id ==ℤ n) e.variable_update_target_by_id)

  unfoldable pub get_additions :
      RulesExceptions S → RuleWithActions S → Transaction S → List (Variable S)
  unfolding additions_for
  get_additions e r t =
      additions_for (λ name. contains_tag r name t) e.variable_update_target_by_tag
      ++ (additions_for (λ name. contains_msg r name t) e.variable_update_target_by_msg
          ++ additions_for (λ n. r.info.rule_id ==ℤ n) e.variable_update_target_by_id)

  -- ctl:ruleRemoveTargetByTag
  unfoldable pub removed_by_tag :
      RuleWithActions S → Transaction S → Bytes → List (Bytes × Bytes) → Bool
  removed_by_tag r t name [] = false
  removed_by_tag r t name ((tag_name, target) ∷ rest) =
      contains_tag r tag_name t && str_eq target name || removed_by_tag r t name rest

  -- the first loop of getFinalVars
  unfoldable pub kept_variables :
      RuleWithActions S → List (Variable S) → Transaction S → List (Variable S) → List (Variable S)
  unfolding target_removed_by_id removed_by_tag contains_variable
  kept_variables r excluded t [] = []
  kept_variables r excluded t (v ∷ rest) =
      let others = kept_variables r excluded t rest in
      if contains_variable excluded v
        || (target_removed_by_id r.info.rule_id v.full_name t.rule_remove_target_by_id
            || removed_by_tag r t v.full_name t.rule_remove_target_by_tag)
      then others
      else v ∷ others

  -- getFinalVars
  unfoldable pub get_final_vars :
      RulesExceptions S → RuleWithOperator S → Transaction S → List (Variable S)
  unfolding kept_variables get_exclusions get_additions
  get_final_vars e r t =
      kept_variables r.actions (get_exclusions e r.actions t) t r.variables
      ++ get_additions e r.actions t

  -- whether the loop over the values of a variable passes over one
  unfoldable pub value_excluded :
      RuleWithActions S → List (Variable S) → Transaction S → VariableValue → Bool
  unfolding contains_value value_removed_by_id removed_by_tag
  value_excluded r excluded t v =
      contains_value excluded v
      || (value_removed_by_id r.info.rule_id v.key_with_collection t.rule_remove_target_by_id
          || removed_by_tag r t v.key_with_collection t.rule_remove_target_by_tag)
