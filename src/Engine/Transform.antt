-- ===== src/Engine/Transform.antt =====
-- RuleWithActions::executeTransformations (src/rule_with_actions.cc).
use mod_security.Engine.Action.{Action, Transformation, transformation}
use mod_security.Engine.Rule.{RuleWithActions, RulesConfig}
use mod_security.Engine.State.{Transaction}
use mod_security.Prelude.{Bool, List, [], if◌then◌else◌, length, suc, ℕ, ◌&&◌, ◌++◌, ◌-◌, ◌==◌, ◌∷◌}
use mod_security.Prelude.Bytes.{Bytes}
use mod_security.Prelude.Int.{ℤ, ◌==ℤ◌}

-- One value to be tested, with the names of the transformations that made it.
pub record TransformationResult : Type 0 where
  pub transformed : Bytes
  pub path_text : Bytes

-- The local variables `value`, `ret` and `path`. The counter `nth` is only for the debug log.
pub record Progress : Type 0 where
  pub current : Bytes
  pub results : List TransformationResult
  pub path : Bytes

module _ {S : Type 0} where
  -- executeTransformation
  unfoldable pub execute_transformation :
      Bool → Transaction S → Transformation S → Progress → Progress
  execute_transformation multi t a p =
      let (value, changed) = a.transform t p.current in
      record {
        current = value;
        results =
            if changed && multi
            then p.results ++ record { transformed = value; path_text = a.transformation_name } ∷ []
            else p.results;
        path =
            if length p.path == 0
            then a.transformation_name
            else p.path ++ b',' ∷ a.transformation_name;
      }

  -- how many are `none`
  unfoldable pub count_none : List (Transformation S) → ℕ
  count_none [] = 0
  count_none (a ∷ rest) = if a.is_none then suc (count_none rest) else count_none rest

  -- The loop over the transformations of the rule, with the counter `none`.
  unfoldable pub run_transformations :
      Bool → Transaction S → ℕ → List (Transformation S) → Progress → Progress
  unfolding execute_transformation
  run_transformations multi t none_count [] p = p
  run_transformations multi t none_count (a ∷ rest) p =
      run_transformations multi t (if a.is_none then none_count - 1 else none_count) rest
        (if none_count == 0 then execute_transformation multi t a p else p)

  -- The loop over the default transformations.
  unfoldable pub run_all : Bool → Transaction S → List (Transformation S) → Progress → Progress
  unfolding execute_transformation
  run_all multi t [] p = p
  run_all multi t (a ∷ rest) p = run_all multi t rest (execute_transformation multi t a p)

  -- The transformations among the default actions, and those that update the rule.
  unfoldable pub default_transformations : List (Action S) → List (Transformation S)
  default_transformations [] = []
  default_transformations (transformation a ∷ rest) = a ∷ default_transformations rest
  default_transformations (a ∷ rest) = default_transformations rest

  unfoldable pub updated_transformations : ℤ → List (ℤ × Action S) → List (Transformation S)
  updated_transformations rule_id [] = []
  updated_transformations rule_id ((n, transformation a) ∷ rest) =
      if rule_id ==ℤ n
      then a ∷ updated_transformations rule_id rest
      else updated_transformations rule_id rest
  updated_transformations rule_id ((n, a) ∷ rest) = updated_transformations rule_id rest

  -- executeTransformations. The counter is 0 after the loop over the transformations of the rule,
  -- so the loop over the updates counts anew.
  unfoldable pub execute_transformations :
      RulesConfig S → RuleWithActions S → Transaction S → Bytes → List TransformationResult
  unfolding count_none run_all run_transformations default_transformations updated_transformations
  execute_transformations config r t input =
      let multi = r.contains_multi_match_action in
      let start : Progress = record {
        current = input;
        results = if multi then record { transformed = input; path_text = [] } ∷ [] else [];
        path = [];
      } in
      let none_count = count_none r.transformations in
      let defaults = default_transformations (config.default_actions r.info.phase) in
      let p₁ = (if none_count == 0 then run_all multi t defaults start else start) in
      let p₂ = run_transformations multi t none_count r.transformations p₁ in
      let updates =
        updated_transformations r.info.rule_id config.exceptions.action_pre_update_target_by_id in
      let p₃ = run_transformations multi t (count_none updates) updates p₂ in
      if multi
      then p₃.results
      else p₃.results ++ record { transformed = p₃.current; path_text = p₃.path } ∷ []
