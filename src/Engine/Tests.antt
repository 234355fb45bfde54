-- ===== src/Engine/Tests.antt =====
-- What the theorems on the engine say of a small rule set.
pub mod Samples
use mod_security.Engine.Action.{Transformation, chain, deny, set_rule_id}
use mod_security.Engine.Blocking.{evaluate_rule_denies}
use mod_security.Engine.Chain.{evaluate_rule_unmatched}
use mod_security.Engine.Detection.Safety.{evaluate_phase_not_enforcing}
use mod_security.Engine.Evaluate.{evaluate_rule, removed_by_id}
use mod_security.Engine.Exceptions.Load.{invalid_range, load}
use mod_security.Engine.Flow.{
  allow_ends_phase, intercept_ends_phase, skip_after_missing_marker, skip_after_reaches_marker,
  skip_passes_over,
}
use mod_security.Engine.Pipeline.{execute_transformations-effective}
use mod_security.Engine.Rule.{RuleWithOperator, marker_rule, new_rule, with_operator}
use mod_security.Engine.RulesSet.{evaluate_phase, run_rules}
use mod_security.Engine.State.{
  RuleMessage, Transaction, detection_only_rule_engine, enabled_rule_engine, get_rule_engine_state,
  is_enabled, new_message, phase_allow_type, property_not_set_rule_engine,
}
use mod_security.Engine.Tests.Samples.{
  config_in, config_in-ConfigKeeps, count_up, denying, denying-RuleKeeps, rules_in, sample_rule,
  sample_rules, sample_transaction,
}
use mod_security.Engine.Transform.{
  count_none, default_transformations, execute_transformations, updated_transformations,
}
use mod_security.Engine.Verdict.{SameControl}
use mod_security.Prelude.{
  [], ap, arith, false, length, map, none, refl, some, true, ℕ, ◌++◌, ◌∷◌, ◌≡◌, ◌≢◌,
}
use mod_security.Prelude.Int.{pos}
use mod_security.Prelude.Text.{codes}
use mod_security.Transformation.Classes.{transform}
use mod_security.Utils.Ctype.{tolower}
use mod_security.Utils.Split.{contains_byte}

-- In DetectionOnly mode both rules match and log, and nothing is intercepted.
detection_counts :
    (evaluate_phase (rules_in detection_only_rule_engine) 3 sample_transaction).store ≡ 2
unfolding evaluate_phase new_rule contains_byte
detection_counts = refl

-- With the engine On the phase is left at the first.
enabled_counts : (evaluate_phase (rules_in enabled_rule_engine) 3 sample_transaction).store ≡ 1
unfolding evaluate_phase new_rule contains_byte
enabled_counts = refl

enabled_status :
    (evaluate_phase (rules_in enabled_rule_engine) 3 sample_transaction).it.status ≡ pos 403
unfolding evaluate_phase new_rule contains_byte
enabled_status = refl

-- A phase in DetectionOnly mode.
evaluate_phase_not_enforcing_example :
    let t' = evaluate_phase (rules_in detection_only_rule_engine) 3 sample_transaction in
    (t'.it.disruptive ≡ false)
    × (t'.it.url ≡ none)
    × (t'.it.log ≡ none)
    × (t'.sec_rule_engine ≡ property_not_set_rule_engine)
unfolding is_enabled get_rule_engine_state
evaluate_phase_not_enforcing_example =
    evaluate_phase_not_enforcing (rules_in detection_only_rule_engine) 3 sample_transaction
      (config_in-ConfigKeeps detection_only_rule_engine)
      ((denying-RuleKeeps, tt), ((denying-RuleKeeps, tt), tt)) refl

abbrev at_denying : Transaction ℕ × RuleMessage
at_denying = (sample_transaction, new_message denying.info)

evaluate_rule_denies_example :
    (evaluate_rule (config_in enabled_rule_engine) denying [] at_denying).1.it.disruptive ≡ true
unfolding evaluate_rule new_rule contains_byte is_enabled get_rule_engine_state removed_by_id
evaluate_rule_denies_example =
    evaluate_rule_denies (config_in enabled_rule_engine) denying deny at_denying
      (config_in-ConfigKeeps enabled_rule_engine) denying-RuleKeeps refl tt tt refl refl refl

-- The rule looks for a byte that the value does not have.
abbrev missing : RuleWithOperator ℕ
missing = sample_rule (pos 2) b'X' (count_up ∷ deny ∷ [])

abbrev starter : RuleWithOperator ℕ
starter = sample_rule (pos 1) b'O' (chain ∷ count_up ∷ deny ∷ [])

evaluate_rule_unmatched_example :
    SameControl at_denying.0
      (evaluate_rule (config_in enabled_rule_engine) starter (missing ∷ []) at_denying).1
unfolding evaluate_rule new_rule contains_byte removed_by_id
evaluate_rule_unmatched_example =
    evaluate_rule_unmatched (config_in enabled_rule_engine) starter (missing ∷ []) at_denying refl

intercept_ends_phase_example :
    run_rules (config_in enabled_rule_engine) (sample_rules ++ sample_rules) sample_transaction
    ≡ run_rules (config_in enabled_rule_engine) sample_rules sample_transaction
unfolding run_rules new_rule contains_byte
intercept_ends_phase_example =
    intercept_ends_phase (config_in enabled_rule_engine) sample_rules sample_rules
      sample_transaction refl refl

abbrev skipping : Transaction ℕ
skipping = record sample_transaction { marker = some (codes "END") }

end_not_other : codes "END" ≢ codes "OTHER"
end_not_other e = ground (arith, ap length e)

skip_after_reaches_marker_example :
    run_rules
      (config_in enabled_rule_engine)
      ((with_operator denying [] ∷ marker_rule (codes "OTHER") ∷ [])
        ++ marker_rule (codes "END") ∷ sample_rules)
      skipping
    ≡ run_rules (config_in enabled_rule_engine) sample_rules (record skipping { marker = none })
skip_after_reaches_marker_example =
    skip_after_reaches_marker (config_in enabled_rule_engine)
      (with_operator denying [] ∷ marker_rule (codes "OTHER") ∷ []) sample_rules (codes "END")
      skipping refl (tt, (end_not_other, tt))

skip_after_missing_marker_example :
    run_rules (config_in enabled_rule_engine) sample_rules skipping ≡ skipping
skip_after_missing_marker_example =
    skip_after_missing_marker (config_in enabled_rule_engine) sample_rules (codes "END") skipping
      refl (tt, (tt, tt))

abbrev skipping_two : Transaction ℕ
skipping_two = record sample_transaction { skip_next = pos 2 }

skip_passes_over_example :
    run_rules (config_in enabled_rule_engine) (sample_rules ++ sample_rules) skipping_two
    ≡ run_rules
        (config_in enabled_rule_engine)
        sample_rules
        (record skipping_two { skip_next = pos 0 })
skip_passes_over_example =
    skip_passes_over (config_in enabled_rule_engine) sample_rules sample_rules skipping_two refl
      refl (tt, (tt, tt))

abbrev allowed : Transaction ℕ
allowed = record sample_transaction { allow_type = phase_allow_type }

allow_ends_phase_example : run_rules (config_in enabled_rule_engine) sample_rules allowed ≡ allowed
allow_ends_phase_example =
    allow_ends_phase (config_in enabled_rule_engine) sample_rules allowed refl (ground arith)
      (ground arith)

abbrev lowercase : Transformation ℕ
lowercase = record {
  transformation_name = codes "t:lowercase";
  transform = λ t v. (map tolower v, true);
  is_none = false;
}

execute_transformations-effective_example :
    map
      (λ x. x.transformed)
      (execute_transformations
        (config_in enabled_rule_engine)
        (new_rule (set_rule_id (pos 1) ∷ []) (lowercase ∷ []) [] 1)
        sample_transaction
        (codes "Ab"))
    ≡ codes "ab" ∷ []
unfolding new_rule count_none default_transformations updated_transformations tolower
execute_transformations-effective_example =
    execute_transformations-effective (config_in enabled_rule_engine)
      (new_rule (set_rule_id (pos 1) ∷ []) (lowercase ∷ []) [] 1) sample_transaction (codes "Ab")

-- The ends of a range are compared as texts.
load-reversed_range :
    (load (codes "10-9") (record { loaded_ranges = []; loaded_numbers = [] })).error ≡ none
unfolding load
load-reversed_range = refl

load-range :
    (load (codes "9-10") (record { loaded_ranges = []; loaded_numbers = [] })).error
    ≡ some (invalid_range (codes "9-10"))
unfolding load
load-range = refl
