-- ===== src/Engine/Blocking.antt =====
-- A rule with `deny` or `drop` that matches intercepts the request while the engine is On.
use mod_security.Engine.Action.{
  Action, block, ctl_rule_engine, deny, drop, evaluate_action, evaluate_block, evaluate_deny,
  evaluate_simple, is_disruptive_action, is_named_block,
}
use mod_security.Engine.Detection.{AllKeep, ConfigKeeps, RuleKeeps}
use mod_security.Engine.Evaluate.{Matching, evaluate_rule, finish_rule, match_rule, removed_by_id}
use mod_security.Engine.Execute.{
  execute_action, execute_after_full_match, pos_update, run_default, run_defaults, run_descriptions,
  run_disruptive, run_pos_updates, run_runtime_action, run_runtime_pos, run_tags,
}
use mod_security.Engine.Matching.{match_rule-SameControl}
use mod_security.Engine.Rule.{RuleWithActions, RuleWithOperator, RulesConfig}
use mod_security.Engine.State.{
  RuleEngine, RuleInfo, RuleMessage, Transaction, get_rule_engine_state, is_enabled,
}
use mod_security.Engine.Verdict.{
  KeepsEngine, enforcing, perform_logging-SameControl, run_descriptions-SameControl,
  run_tags-SameControl,
}
use mod_security.Prelude.{
  Bool, Bool-cases, List, [], ap, arith, false, if_ind, if_ind_eq, if◌then◌else◌, inl, inr, none,
  not, refl, some, sym, true, ◌&&◌, ◌∙◌, ◌∷◌, ◌≡◌, ◌≢◌,
}
use mod_security.Prelude.Bytes.{All}
use mod_security.Prelude.Int.{==ℤ_iff, ℤ, ◌==ℤ◌}

module _ {S : Type 0} where
  abbrev mode : Transaction S × RuleMessage → RuleEngine
  mode s = s.0.sec_rule_engine

  evaluate_simple-mode :
      (a : Action S) (s : Transaction S × RuleMessage)
      → KeepsEngine a
      → mode (evaluate_simple a s) ≡ mode s
  unfolding evaluate_simple
  evaluate_simple-mode (ctl_rule_engine e) s k = elim k [ ]
  evaluate_simple-mode _ s k = ground arith

  evaluate_block-mode :
      (l : List (Action S)) (s : Transaction S × RuleMessage)
      → AllKeep l
      → mode (evaluate_block l s) ≡ mode s
  unfolding evaluate_block
  evaluate_block-mode [] s k = refl
  evaluate_block-mode (a ∷ rest) s k =
      evaluate_block-mode rest (if is_disruptive_action a then evaluate_simple a s else s) k.1
      ∙ if_ind (λ z. mode z ≡ mode s) (is_disruptive_action a) (evaluate_simple-mode a s k.0) refl

  evaluate_action-mode :
      (defaults : List (Action S)) (a : Action S) (s : Transaction S × RuleMessage)
      → AllKeep defaults
      → KeepsEngine a
      → mode (evaluate_action defaults a s) ≡ mode s
  unfolding evaluate_action
  evaluate_action-mode defaults block s d k = evaluate_block-mode defaults s d
  evaluate_action-mode defaults a s d k = evaluate_simple-mode a s k

module _ {S : Type 0} (config : RulesConfig S) (info : RuleInfo) (c : ConfigKeeps config) where
  execute_action-mode :
      (block' : Bool) (a : Action S) (default' : Bool) (s : Transaction S × RuleMessage)
      → KeepsEngine a
      → mode (execute_action config info block' a default' s) ≡ mode s
  unfolding execute_action
  execute_action-mode block' a default' s k =
      let run =
        evaluate_action-mode (config.default_actions info.phase) a s (c.defaults_keep info.phase)
          k in
      let P = λ (z : Transaction S × RuleMessage). mode z ≡ mode s in
      if_ind P (not (is_disruptive_action a) && not (is_named_block a)) run (
        if_ind P (default' && not block') refl (
          if_ind P (is_enabled (get_rule_engine_state config.configured_rule_engine s.0)) run refl))

  run_defaults-mode :
      (block' : Bool) (l : List (Action S)) (s : Transaction S × RuleMessage)
      → AllKeep l
      → mode (run_defaults config info block' l s) ≡ mode s
  unfolding run_defaults run_default
  run_defaults-mode block' [] s k = refl
  run_defaults-mode block' (a ∷ rest) s k =
      run_defaults-mode block' rest (run_default config info block' a s) k.1
      ∙ ground (arith, execute_action-mode block' a true s k.0)

  run_runtime_pos-mode :
      (block' already : Bool) (l : List (Action S)) (s : Transaction S × RuleMessage)
      → AllKeep l
      → mode (run_runtime_pos config info block' already l s) ≡ mode s
  unfolding run_runtime_pos run_runtime_action
  run_runtime_pos-mode block' already [] s k = refl
  run_runtime_pos-mode block' already (a ∷ rest) s k =
      run_runtime_pos-mode block' already rest (run_runtime_action config info block' already a s)
        k.1
      ∙ ground (arith, execute_action-mode block' a false s k.0)

  -- Updates of other rules change nothing.
  run_pos_updates-other :
      (block' : Bool) (l : List (ℤ × Action S)) (s : Bool × Transaction S × RuleMessage)
      → All (λ p. p.0 ≢ info.rule_id) l
      → run_pos_updates config info block' l s ≡ s
  unfolding run_pos_updates pos_update
  run_pos_updates-other block' [] s h = refl
  run_pos_updates-other block' ((n, a) ∷ rest) s h = elim (Bool-cases (info.rule_id ==ℤ n)) [
    | inl e ↦ absurd (h.0 (sym ((==ℤ_iff info.rule_id n).0 e)))
    | inr e ↦ rw e (run_pos_updates-other block' rest s h.1)
  ]

-- `deny` and `drop`.
abbrev pub IsDeny : {S : Type 0} → Action S → Type 0
IsDeny deny = Unit
IsDeny drop = Unit
IsDeny _ = ⊥

module _ {S : Type 0} (config : RulesConfig S) where
  execute_action-deny :
      (info : RuleInfo) (block' : Bool) (a : Action S) (s : Transaction S × RuleMessage)
      → IsDeny a
      → enforcing config s.0 ≡ true
      → (execute_action config info block' a false s).0.it.disruptive ≡ true
  unfolding execute_action
  execute_action-deny info block' deny s d e =
      if_ind_eq (λ (z : Transaction S × RuleMessage). z.0.it.disruptive ≡ true)
        (enforcing config s.0) {x = evaluate_deny s} {y = s} (λ on. refl) (λ off. cc)
  execute_action-deny info block' drop s d e =
      if_ind_eq (λ (z : Transaction S × RuleMessage). z.0.it.disruptive ≡ true)
        (enforcing config s.0) {x = evaluate_deny s} {y = s} (λ on. refl) (λ off. cc)
  execute_action-deny info block' _ s d e = elim d [ ]

  execute_after_full_match-deny :
      (r : RuleWithActions S) (block' : Bool) (a : Action S) (s : Transaction S × RuleMessage)
      → ConfigKeeps config
      → RuleKeeps r
      → r.disruptive_action ≡ some a
      → IsDeny a
      → All (λ p. p.0 ≢ r.info.rule_id) config.exceptions.action_pos_update_target_by_id
      → enforcing config s.0 ≡ true
      → (execute_after_full_match config r block' s).0.it.disruptive ≡ true
  unfolding execute_after_full_match run_disruptive
  execute_after_full_match-deny r block' a s c k has d others e =
      let i = r.info in
      let s₁ = run_defaults config i block' (config.default_actions i.phase) s in
      let m₁ = run_defaults-mode config i c block' _ s (c.defaults_keep i.phase) in
      let s₂ = run_tags r.actions_tag s₁ in
      let m₂ = (run_tags-SameControl r.actions_tag s₁).same_mode in
      let l = config.exceptions.action_pos_update_target_by_id in
      let u = run_pos_updates-other config i c block' l (false, s₂.0, s₂.1) others in
      let s₄ = run_descriptions r s₂ in
      let m₄ = (run_descriptions-SameControl r s₂).same_mode in
      let s₅ = run_runtime_pos config i block' false r.actions_runtime_pos s₄ in
      let m₅ =
        run_runtime_pos-mode config i c block' false r.actions_runtime_pos s₄ k.runtime_keep in
      let e₅ : enforcing config s₅.0 ≡ true =
        unfold is_enabled get_rule_engine_state in ground (arith, m₁, m₂, m₄, m₅) in
      rw (u, has) (execute_action-deny i block' a s₅ d e₅)

  finish_rule-deny :
      (r : RuleWithOperator S) (m : Matching S) (a : Action S)
      → ConfigKeeps config
      → RuleKeeps r.actions
      → r.disruptive_action ≡ some a
      → IsDeny a
      → All (λ p. p.0 ≢ r.info.rule_id) config.exceptions.action_pos_update_target_by_id
      → enforcing config m.trans ≡ true
      → (finish_rule config r m none).0 ≡ true
      → (finish_rule config r m none).1.it.disruptive ≡ true
  unfolding finish_rule
  finish_rule-deny r m a c k has d others e =
      let s : Transaction S × RuleMessage = (m.trans, m.rule_message) in
      let fire = execute_after_full_match-deny r.actions m.contains_block a s c k has d others e in
      let s' = execute_after_full_match config r.actions m.contains_block s in
      let kept = (perform_logging-SameControl r.actions true true s').same_it in
      let P = λ (z : Bool × Transaction S × RuleMessage). z.0 ≡ true → z.1.it.disruptive ≡ true in
      if_ind P (not m.global_ret) (λ x. cc)
        (if_ind P (not r.is_chained) (λ x. ap (λ i. i.disruptive) kept ∙ fire) (λ x. cc))

  -- A rule with `deny` or `drop`, that no ctl:ruleRemoveById takes out and no directive updates,
  -- intercepts the request whenever it matches and is no chain starter, if the engine is On, neither
  -- the rule nor the default actions change its mode, and the state is that of a rule's start.
  pub evaluate_rule_denies :
      (r : RuleWithOperator S) (a : Action S) (s : Transaction S × RuleMessage)
      → ConfigKeeps config
      → RuleKeeps r.actions
      → r.disruptive_action ≡ some a
      → IsDeny a
      → All (λ p. p.0 ≢ r.info.rule_id) config.exceptions.action_pos_update_target_by_id
      → enforcing config s.0 ≡ true
      → removed_by_id config r.info.rule_id s.0 ≡ false
      → (evaluate_rule config r [] s).0 ≡ true
      → (evaluate_rule config r [] s).1.it.disruptive ≡ true
  unfolding evaluate_rule removed_by_id
  evaluate_rule_denies r a s c k has d others e kept =
      let t' = record (s.0) { matched = [] } in
      let m = match_rule config r (t', s.1) in
      let same = (match_rule-SameControl config r (t', s.1)).same_mode in
      let e' : enforcing config m.trans ≡ true =
        unfold is_enabled get_rule_engine_state in ground (arith, same) in
      rw kept (finish_rule-deny r m a c k has d others e')
