-- ===== src/Engine/Exceptions.antt =====
-- src/rules_exceptions.cc: which rules are taken out, and whose targets and actions are changed.
-- The identifiers of the update directives are `double`s in the source; only those that are whole
-- numbers can equal the identifier of a rule.
pub mod Load
pub mod Contains
use mod_security.Engine.Action.{
  Action, configuration_kind, kind, run_time_before_match_attempt_kind, run_time_only_if_match_kind,
}
use mod_security.Engine.Exceptions.Load.{LoadError, load}
use mod_security.Engine.Variable.{Variable}
use mod_security.Prelude.{Bool, List, Option, [], false, if◌then◌else◌, true, ◌&&◌, ◌++◌, ◌∷◌}
use mod_security.Prelude.Bytes.{Bytes}
use mod_security.Prelude.Int.{leb_ℤ, ℤ, ◌==ℤ◌}

-- An updated target: one more variable, or one that is taken out (a VariableModificatorExclusion,
-- with its m_base).
pub data TargetUpdate (S : Type 0) : Type 0 where
  exclusion : Variable S → TargetUpdate S
  addition : Variable S → TargetUpdate S

pub record RulesExceptions (S : Type 0) : Type 0 where
  pub ranges : List (ℤ × ℤ)
  pub numbers : List ℤ
  pub remove_rule_by_msg : List Bytes
  pub remove_rule_by_tag : List Bytes
  pub variable_update_target_by_tag : List (Bytes × TargetUpdate S)
  pub variable_update_target_by_msg : List (Bytes × TargetUpdate S)
  pub variable_update_target_by_id : List (ℤ × TargetUpdate S)
  pub action_pre_update_target_by_id : List (ℤ × Action S)
  pub action_pos_update_target_by_id : List (ℤ × Action S)

-- the loop over m_numbers
unfoldable pub in_numbers : ℤ → List ℤ → Bool
in_numbers a [] = false
in_numbers a (z ∷ zs) = if a ==ℤ z then true else in_numbers a zs

-- the loop over m_ranges, and those over m_ruleRemoveByIdRange
unfoldable pub in_ranges : ℤ → List (ℤ × ℤ) → Bool
in_ranges a [] = false
in_ranges a ((lo, hi) ∷ zs) = if leb_ℤ lo a && leb_ℤ a hi then true else in_ranges a zs

module _ {S : Type 0} where
  unfoldable pub add_number : ℤ → RulesExceptions S → RulesExceptions S
  add_number a e = record e { numbers = e.numbers ++ a ∷ [] }

  unfoldable pub add_range : ℤ → ℤ → RulesExceptions S → RulesExceptions S
  add_range a b e = record e { ranges = e.ranges ++ (a, b) ∷ [] }

  unfoldable pub contains_id : RulesExceptions S → ℤ → Bool
  unfolding in_numbers in_ranges
  contains_id e a = if in_numbers a e.numbers then true else in_ranges a e.ranges

  unfoldable pub load_remove_rule_by_msg : Bytes → RulesExceptions S → RulesExceptions S
  load_remove_rule_by_msg s e = record e { remove_rule_by_msg = e.remove_rule_by_msg ++ s ∷ [] }

  unfoldable pub load_remove_rule_by_tag : Bytes → RulesExceptions S → RulesExceptions S
  load_remove_rule_by_tag s e = record e { remove_rule_by_tag = e.remove_rule_by_tag ++ s ∷ [] }

  -- Every variable of the directive goes in with the key.
  unfoldable pub with_key {ℓ} : {K : Type ℓ} → K → List (TargetUpdate S) → List (K × TargetUpdate S)
  with_key k [] = []
  with_key k (v ∷ vs) = (k, v) ∷ with_key k vs

  unfoldable pub load_update_target_by_msg :
      Bytes → List (TargetUpdate S) → RulesExceptions S → RulesExceptions S
  unfolding with_key
  load_update_target_by_msg s vs e = record e {
    variable_update_target_by_msg = e.variable_update_target_by_msg ++ with_key s vs;
  }

  unfoldable pub load_update_target_by_tag :
      Bytes → List (TargetUpdate S) → RulesExceptions S → RulesExceptions S
  unfolding with_key
  load_update_target_by_tag s vs e = record e {
    variable_update_target_by_tag = e.variable_update_target_by_tag ++ with_key s vs;
  }

  unfoldable pub load_update_target_by_id :
      ℤ → List (TargetUpdate S) → RulesExceptions S → RulesExceptions S
  unfolding with_key
  load_update_target_by_id n vs e = record e {
    variable_update_target_by_id = e.variable_update_target_by_id ++ with_key n vs;
  }

  -- one action of loadUpdateActionById; one of ConfigurationKind is only complained about
  unfoldable pub load_update_action : ℤ → Action S → RulesExceptions S → RulesExceptions S
  unfolding kind
  load_update_action n a e = elim (kind a) [
    | configuration_kind ↦ e
    | run_time_before_match_attempt_kind ↦ record e {
      action_pre_update_target_by_id = e.action_pre_update_target_by_id ++ (n, a) ∷ [];
    }
    | run_time_only_if_match_kind ↦ record e {
      action_pos_update_target_by_id = e.action_pos_update_target_by_id ++ (n, a) ∷ [];
    }
  ]

  unfoldable pub load_update_action_by_id :
      ℤ → List (Action S) → RulesExceptions S → RulesExceptions S
  unfolding load_update_action
  load_update_action_by_id n [] e = e
  load_update_action_by_id n (a ∷ rest) e =
      load_update_action_by_id n rest (load_update_action n a e)

  -- `merge`; the multimaps of the source have no order
  unfoldable pub merge_exceptions : RulesExceptions S → RulesExceptions S → RulesExceptions S
  merge_exceptions from e = record {
    ranges = e.ranges ++ from.ranges;
    numbers = e.numbers ++ from.numbers;
    remove_rule_by_msg = e.remove_rule_by_msg ++ from.remove_rule_by_msg;
    remove_rule_by_tag = e.remove_rule_by_tag ++ from.remove_rule_by_tag;
    variable_update_target_by_tag =
        e.variable_update_target_by_tag ++ from.variable_update_target_by_tag;
    variable_update_target_by_msg =
        e.variable_update_target_by_msg ++ from.variable_update_target_by_msg;
    variable_update_target_by_id =
        e.variable_update_target_by_id ++ from.variable_update_target_by_id;
    action_pre_update_target_by_id =
        e.action_pre_update_target_by_id ++ from.action_pre_update_target_by_id;
    action_pos_update_target_by_id =
        e.action_pos_update_target_by_id ++ from.action_pos_update_target_by_id;
  }

  -- `load` on the exceptions: what was read before an error stays.
  unfoldable pub load_ids : Bytes → RulesExceptions S → RulesExceptions S × Option LoadError
  unfolding load
  load_ids a e =
      let r = load a (record { loaded_ranges = e.ranges; loaded_numbers = e.numbers }) in
      (record e { ranges = r.ids.loaded_ranges; numbers = r.ids.loaded_numbers }, r.error)
