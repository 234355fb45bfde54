-- ===== src/Engine/Verdict.antt =====
-- The parts of a transaction that decide on an intervention, and what leaves them alone.
use mod_security.Engine.Action.{Action, ctl_rule_engine, evaluate_simple, is_disruptive_action, tag}
use mod_security.Engine.Execute.{perform_logging, run_descriptions, run_set_vars, run_tags}
use mod_security.Engine.Rule.{RuleWithActions, RulesConfig}
use mod_security.Engine.State.{RuleMessage, Transaction, get_rule_engine_state, is_enabled}
use mod_security.Engine.Variable.{RunTimeString}
use mod_security.Prelude.{Bool, List, Option, [], arith, false, none, some, ◌∷◌, ◌≡◌}

-- The parts of a transaction that decide what happens to the request.
pub record SameVerdict {S : Type 0} (t t' : Transaction S) : Type 0 where
  pub same_disruptive : t'.it.disruptive ≡ t.it.disruptive
  pub same_url : t'.it.url ≡ t.it.url
  pub same_log : t'.it.log ≡ t.it.log
  pub same_allow : t'.allow_type ≡ t.allow_type
  pub same_engine : t'.sec_rule_engine ≡ t.sec_rule_engine

-- All that decides on the request and on which rules run: everything but the rest of the
-- transaction, the matched variables and strings, the logs and the highest severity.
pub record SameControl {S : Type 0} (t t' : Transaction S) : Type 0 where
  pub same_it : t'.it ≡ t.it
  pub same_allow_type : t'.allow_type ≡ t.allow_type
  pub same_mode : t'.sec_rule_engine ≡ t.sec_rule_engine
  pub same_skip_next : t'.skip_next ≡ t.skip_next
  pub same_marker : t'.marker ≡ t.marker
  pub same_removed_ids : t'.rule_remove_by_id ≡ t.rule_remove_by_id
  pub same_removed_ranges : t'.rule_remove_by_id_range ≡ t.rule_remove_by_id_range
  pub same_removed_tags : t'.rule_remove_by_tag ≡ t.rule_remove_by_tag
  pub same_targets_by_id : t'.rule_remove_target_by_id ≡ t.rule_remove_target_by_id
  pub same_targets_by_tag : t'.rule_remove_target_by_tag ≡ t.rule_remove_target_by_tag

-- The action does not change the mode of the engine.
abbrev pub KeepsEngine : {S : Type 0} → Action S → Type 0
KeepsEngine (ctl_rule_engine e) = ⊥
KeepsEngine _ = Unit

abbrev pub KeepsEngine? : {S : Type 0} → Option (Action S) → Type 0
KeepsEngine? none = Unit
KeepsEngine? (some a) = KeepsEngine a

abbrev pub enforcing : {S : Type 0} → RulesConfig S → Transaction S → Bool
enforcing config t = is_enabled (get_rule_engine_state config.configured_rule_engine t)

module _ {S : Type 0} where
  pub SameVerdict-refl : (t : Transaction S) → SameVerdict t t
  SameVerdict-refl t = ground arith

  pub SameVerdict-trans :
      {t u v : Transaction S} → SameVerdict t u → SameVerdict u v → SameVerdict t v
  SameVerdict-trans h k = ground arith

  pub SameControl-refl : (t : Transaction S) → SameControl t t
  SameControl-refl t = ground arith

  pub SameControl-trans :
      {t u v : Transaction S} → SameControl t u → SameControl u v → SameControl t v
  SameControl-trans h k = ground arith

  pub SameControl-SameVerdict : {t u : Transaction S} → SameControl t u → SameVerdict t u
  SameControl-SameVerdict h = ground arith

  pub enforcing-SameVerdict :
      (config : RulesConfig S) {t u : Transaction S}
      → SameVerdict t u
      → enforcing config t ≡ false
      → enforcing config u ≡ false
  unfolding is_enabled get_rule_engine_state
  enforcing-SameVerdict config h e = ground arith

  pub evaluate_simple-SameVerdict :
      (a : Action S) (s : Transaction S × RuleMessage)
      → KeepsEngine a
      → is_disruptive_action a ≡ false
      → SameVerdict s.0 (evaluate_simple a s).0
  unfolding evaluate_simple is_disruptive_action
  evaluate_simple-SameVerdict (ctl_rule_engine e) s k h = elim k [ ]
  evaluate_simple-SameVerdict _ s k h = ground arith

  pub run_tags-SameControl :
      (l : List (RunTimeString S)) (s : Transaction S × RuleMessage)
      → SameControl s.0 (run_tags l s).0
  unfolding run_tags
  run_tags-SameControl [] s = SameControl-refl s.0
  run_tags-SameControl (a ∷ rest) s = run_tags-SameControl rest (evaluate_simple (tag a) s)

  pub run_descriptions-SameControl :
      (r : RuleWithActions S) (s : Transaction S × RuleMessage)
      → SameControl s.0 (run_descriptions r s).0
  unfolding run_descriptions
  run_descriptions-SameControl r s = ground arith

  pub run_set_vars-SameControl :
      (l : List (Transaction S → S)) (t : Transaction S) → SameControl t (run_set_vars l t)
  unfolding run_set_vars
  run_set_vars-SameControl [] t = SameControl-refl t
  run_set_vars-SameControl (f ∷ rest) t =
      SameControl-trans (ground arith) (run_set_vars-SameControl rest (record t { store = f t }))

  pub perform_logging-SameControl :
      (r : RuleWithActions S) (last no_parent : Bool) (s : Transaction S × RuleMessage)
      → SameControl s.0 (perform_logging r last no_parent s).0
  unfolding perform_logging
  perform_logging-SameControl r last no_parent s = ground arith
