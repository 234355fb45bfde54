-- ===== src/Engine/Execute.antt =====
-- RuleWithActions: how the actions of a rule are run (src/rule_with_actions.cc).
use mod_security.Engine.Action.{
  Action, block, evaluate_action, evaluate_simple, is_disruptive_action, is_named_block,
  is_named_setvar, kind, log_data, msg, run_time_only_if_match_kind, severity_action, tag,
}
use mod_security.Engine.Rule.{RuleWithActions, RulesConfig}
use mod_security.Engine.State.{
  RuleInfo, RuleMessage, Transaction, get_rule_engine_state, is_enabled, reset_message, server_log,
}
use mod_security.Engine.Variable.{RunTimeString}
use mod_security.Prelude.{
  Bool, List, Option, [], false, if◌then◌else◌, length, none, not, some, true, ◌&&◌, ◌++◌, ◌==◌,
  ◌||◌, ◌∷◌,
}
use mod_security.Prelude.Int.{ℤ, ◌==ℤ◌}

-- `dynamic_cast<actions::Block *>`
unfoldable pub is_block : {S : Type 0} → Action S → Bool
is_block block = true
is_block _ = false

module _ {S : Type 0} where
  -- the loop over the `setvar` actions
  unfoldable pub run_set_vars : List (Transaction S → S) → Transaction S → Transaction S
  run_set_vars [] t = t
  run_set_vars (f ∷ rest) t = run_set_vars rest (record t { store = f t })

  unfoldable pub run_tags :
      List (RunTimeString S) → Transaction S × RuleMessage → Transaction S × RuleMessage
  unfolding evaluate_simple
  run_tags [] s = s
  run_tags (a ∷ rest) s = run_tags rest (evaluate_simple (tag a) s)

  -- severity, logdata and msg, those that are there
  unfoldable pub run_severity : Option ℤ → Transaction S × RuleMessage → Transaction S × RuleMessage
  unfolding evaluate_simple
  run_severity none s = s
  run_severity (some n) s = evaluate_simple (severity_action n) s

  unfoldable pub run_log_data :
      Option (RunTimeString S) → Transaction S × RuleMessage → Transaction S × RuleMessage
  unfolding evaluate_simple
  run_log_data none s = s
  run_log_data (some d) s = evaluate_simple (log_data d) s

  unfoldable pub run_msg :
      Option (RunTimeString S) → Transaction S × RuleMessage → Transaction S × RuleMessage
  unfolding evaluate_simple
  run_msg none s = s
  run_msg (some d) s = evaluate_simple (msg d) s

  unfoldable pub run_descriptions :
      RuleWithActions S → Transaction S × RuleMessage → Transaction S × RuleMessage
  unfolding run_severity run_log_data run_msg
  run_descriptions r s =
      run_msg r.msg_action (run_log_data r.log_data_action (run_severity r.rule_severity s))

module _ {S : Type 0} (config : RulesConfig S) where
  -- executeAction; the flag `default_context` says that `a` is a default action
  unfoldable pub execute_action :
      RuleInfo → Bool → Action S → Bool → Transaction S × RuleMessage → Transaction S × RuleMessage
  unfolding evaluate_action is_enabled get_rule_engine_state is_disruptive_action is_named_block
  execute_action info contains_block a default_context (t, m) =
      if not (is_disruptive_action a) && not (is_named_block a)
      then evaluate_action (config.default_actions info.phase) a (t, m)
      else if default_context && not contains_block
      then (t, m)
      else if is_enabled (get_rule_engine_state config.configured_rule_engine t)
      then evaluate_action (config.default_actions info.phase) a (t, m)
      else (t, m)

  -- one round of the loop over m_action_pre_update_target_by_id, which also finds whether the rule
  -- is to count as one with a `block` action
  unfoldable pub pre_update :
      RuleInfo
      → ℤ
      → Action S
      → Bool × Transaction S × RuleMessage
      → Bool × Transaction S × RuleMessage
  unfolding is_disruptive_action is_named_block is_named_setvar evaluate_action
  pre_update info n a (contains_block, t, m) =
      let (t', m') = evaluate_action (config.default_actions info.phase) a (t, m) in
      if not (info.rule_id ==ℤ n)
      then (contains_block, t, m)
      else if is_disruptive_action a && is_named_block a
      then (true, t, m)
      else if is_named_setvar a
      then (contains_block, t', m')
      else (contains_block, t, m)

  unfoldable pub run_pre_updates :
      RuleInfo
      → List (ℤ × Action S)
      → Bool × Transaction S × RuleMessage
      → Bool × Transaction S × RuleMessage
  unfolding pre_update
  run_pre_updates info [] s = s
  run_pre_updates info ((n, a) ∷ rest) s = run_pre_updates info rest (pre_update info n a s)

  -- executeActionsIndependentOfChainedRuleResult
  unfoldable pub execute_independent :
      RuleWithActions S → Bool → Transaction S × RuleMessage → Bool × Transaction S × RuleMessage
  unfolding run_set_vars run_pre_updates run_descriptions run_tags
  execute_independent r contains_block (t, m) =
      let (contains_block', t', m') =
        run_pre_updates r.info config.exceptions.action_pre_update_target_by_id
          (contains_block, run_set_vars r.actions_set_var t, m) in
      let (t'', m'') =
        (if r.contains_multi_match_action && not r.has_parent
          then run_tags r.actions_tag (run_descriptions r (t', m'))
          else (t', m')) in
      (contains_block', t'', m'')

  -- the loop over the default actions, and one round of it
  unfoldable pub run_default :
      RuleInfo → Bool → Action S → Transaction S × RuleMessage → Transaction S × RuleMessage
  unfolding execute_action kind is_disruptive_action
  run_default info contains_block a s = elim (kind a) [
    | run_time_only_if_match_kind ↦
        if is_disruptive_action a then s else execute_action info contains_block a true s
    | _ ↦ s
  ]

  unfoldable pub run_defaults :
      RuleInfo → Bool → List (Action S) → Transaction S × RuleMessage → Transaction S × RuleMessage
  unfolding run_default
  run_defaults info contains_block [] s = s
  run_defaults info contains_block (a ∷ rest) s =
      run_defaults info contains_block rest (run_default info contains_block a s)

  -- the loop over m_action_pos_update_target_by_id, and one round of it; the flag is
  -- `disruptiveAlreadyExecuted`
  unfoldable pub pos_update :
      RuleInfo
      → Bool
      → ℤ
      → Action S
      → Bool × Transaction S × RuleMessage
      → Bool × Transaction S × RuleMessage
  unfolding execute_action
  pos_update info contains_block n a (already, t, m) =
      let (t', m') = execute_action info contains_block a false (t, m) in
      if info.rule_id ==ℤ n then (true, t', m') else (already, t, m)

  unfoldable pub run_pos_updates :
      RuleInfo
      → Bool
      → List (ℤ × Action S)
      → Bool × Transaction S × RuleMessage
      → Bool × Transaction S × RuleMessage
  unfolding pos_update
  run_pos_updates info contains_block [] s = s
  run_pos_updates info contains_block ((n, a) ∷ rest) s =
      run_pos_updates info contains_block rest (pos_update info contains_block n a s)

  -- the loop over m_actionsRuntimePos, and one round of it
  unfoldable pub run_runtime_action :
      RuleInfo → Bool → Bool → Action S → Transaction S × RuleMessage → Transaction S × RuleMessage
  unfolding execute_action is_disruptive_action is_block
  run_runtime_action info contains_block already a s =
      if not (is_disruptive_action a) && not (already && is_block a)
      then execute_action info contains_block a false s
      else s

  unfoldable pub run_runtime_pos :
      RuleInfo
      → Bool
      → Bool
      → List (Action S)
      → Transaction S × RuleMessage
      → Transaction S × RuleMessage
  unfolding run_runtime_action
  run_runtime_pos info contains_block already [] s = s
  run_runtime_pos info contains_block already (a ∷ rest) s =
      run_runtime_pos info contains_block already rest
        (run_runtime_action info contains_block already a s)

  -- the last statement of executeActionsAfterFullMatch
  unfoldable pub run_disruptive :
      RuleInfo
      → Bool
      → Bool
      → Option (Action S)
      → Transaction S × RuleMessage
      → Transaction S × RuleMessage
  unfolding execute_action
  run_disruptive info contains_block already none s = s
  run_disruptive info contains_block already (some a) s =
      if already then s else execute_action info contains_block a false s

  -- executeActionsAfterFullMatch
  unfoldable pub execute_after_full_match :
      RuleWithActions S → Bool → Transaction S × RuleMessage → Transaction S × RuleMessage
  unfolding run_defaults run_tags run_pos_updates run_descriptions run_runtime_pos run_disruptive
  execute_after_full_match r contains_block s =
      let (t₂, m₂) =
        run_tags r.actions_tag
          (run_defaults r.info contains_block (config.default_actions r.info.phase) s) in
      let (already, t₃, m₃) =
        run_pos_updates r.info contains_block config.exceptions.action_pos_update_target_by_id
          (false, t₂, m₂) in
      run_disruptive r.info contains_block already r.disruptive_action (
        run_runtime_pos r.info contains_block already r.actions_runtime_pos
          (run_descriptions r (t₃, m₃)))

-- `warn` and `error` of performLogging
unfoldable pub save_message_of : {S : Type 0} → Transaction S × RuleMessage → Transaction S
unfolding server_log
save_message_of (t, m) =
    let t' = record t { rules_messages = t.rules_messages ++ m ∷ [] } in
    if m.is_disruptive then t' else server_log m t'

-- performLogging
unfoldable pub perform_logging :
    {S : Type 0}
    → RuleWithActions S
    → Bool
    → Bool
    → Transaction S × RuleMessage
    → Transaction S × RuleMessage
unfolding save_message_of reset_message
perform_logging r last_log chained_parent_null (t, m) =
    let once = not r.contains_multi_match_action in
    let wanted =
      (if chained_parent_null
        then m.save_message && not r.has_parent && once
        else r.contains_static_block_action && once
          || m.save_message && once && not (length m.message == 0)) in
    if last_log
    then (if wanted then save_message_of (t, m) else t, m)
    else if r.contains_multi_match_action && m.save_message
    then (save_message_of (t, m), reset_message false m)
    else (t, m)
