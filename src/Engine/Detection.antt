-- ===== src/Engine/Detection.antt =====
-- Running the actions of a rule while the engine is not On.
pub mod Safety
use mod_security.Engine.Action.{Action, block, evaluate_simple, set_var}
use mod_security.Engine.Execute.{
  execute_action, execute_after_full_match, execute_independent, pos_update, pre_update,
  run_default, run_defaults, run_descriptions, run_disruptive, run_pos_updates, run_pre_updates,
  run_runtime_action, run_runtime_pos, run_set_vars, run_tags,
}
use mod_security.Engine.Rule.{RuleWithActions, RulesConfig}
use mod_security.Engine.State.{RuleInfo, RuleMessage, Transaction}
use mod_security.Engine.Verdict.{
  KeepsEngine, KeepsEngine?, SameControl, SameControl-SameVerdict, SameControl-refl,
  SameControl-trans, SameVerdict, SameVerdict-refl, SameVerdict-trans, enforcing,
  enforcing-SameVerdict, evaluate_simple-SameVerdict, run_descriptions-SameControl,
  run_set_vars-SameControl, run_tags-SameControl,
}
use mod_security.Prelude.{Bool, List, Option, [], arith, false, none, some, true, ℕ, ◌∷◌, ◌≡◌}
use mod_security.Prelude.Int.{ℤ}

-- Every action of the list keeps the mode.
abbrev pub AllKeep : {S : Type 0} → List (Action S) → Type 0
AllKeep [] = Unit
AllKeep (a ∷ rest) = KeepsEngine a × AllKeep rest

abbrev pub AllKeep-keyed : {S : Type 0} → List (ℤ × Action S) → Type 0
AllKeep-keyed [] = Unit
AllKeep-keyed ((n, a) ∷ rest) = KeepsEngine a × AllKeep-keyed rest

module _ {S : Type 0} (config : RulesConfig S) (info : RuleInfo) where
  execute_action-SameVerdict :
      (block' : Bool) (a : Action S) (default' : Bool) (s : Transaction S × RuleMessage)
      → enforcing config s.0 ≡ false
      → KeepsEngine a
      → SameVerdict s.0 (execute_action config info block' a default' s).0
  unfolding execute_action
  execute_action-SameVerdict block' block default' s e k = ground arith
  execute_action-SameVerdict block' a default' s e k =
      ground (arith, evaluate_simple-SameVerdict a s k)

  pre_update-SameControl :
      (n : ℤ) (a : Action S) (s : Bool × Transaction S × RuleMessage)
      → SameControl s.1 (pre_update config info n a s).1
  unfolding pre_update evaluate_simple
  pre_update-SameControl n (set_var f) s = ground arith
  pre_update-SameControl n a s = ground arith

  pub run_pre_updates-SameControl :
      (l : List (ℤ × Action S)) (s : Bool × Transaction S × RuleMessage)
      → SameControl s.1 (run_pre_updates config info l s).1
  unfolding run_pre_updates
  run_pre_updates-SameControl [] s = SameControl-refl s.1
  run_pre_updates-SameControl ((n, a) ∷ rest) s =
      SameControl-trans (pre_update-SameControl n a s)
        (run_pre_updates-SameControl rest (pre_update config info n a s))

  run_default-SameVerdict :
      (block' : Bool) (a : Action S) (s : Transaction S × RuleMessage)
      → enforcing config s.0 ≡ false
      → KeepsEngine a
      → SameVerdict s.0 (run_default config info block' a s).0
  unfolding run_default
  run_default-SameVerdict block' a s e k =
      ground (arith, execute_action-SameVerdict block' a true s e k)

  pub run_defaults-SameVerdict :
      (block' : Bool) (l : List (Action S)) (s : Transaction S × RuleMessage)
      → enforcing config s.0 ≡ false
      → AllKeep l
      → SameVerdict s.0 (run_defaults config info block' l s).0
  unfolding run_defaults
  run_defaults-SameVerdict block' [] s e k = SameVerdict-refl s.0
  run_defaults-SameVerdict block' (a ∷ rest) s e k =
      let one = run_default-SameVerdict block' a s e k.0 in
      SameVerdict-trans one (
        run_defaults-SameVerdict block' rest (run_default config info block' a s)
          (enforcing-SameVerdict config one e) k.1)

  pos_update-SameVerdict :
      (block' : Bool) (n : ℤ) (a : Action S) (s : Bool × Transaction S × RuleMessage)
      → enforcing config s.1 ≡ false
      → KeepsEngine a
      → SameVerdict s.1 (pos_update config info block' n a s).1
  unfolding pos_update
  pos_update-SameVerdict block' n a s e k =
      ground (arith, execute_action-SameVerdict block' a false (s.1, s.2) e k)

  run_pos_updates-SameVerdict :
      (block' : Bool) (l : List (ℤ × Action S)) (s : Bool × Transaction S × RuleMessage)
      → enforcing config s.1 ≡ false
      → AllKeep-keyed l
      → SameVerdict s.1 (run_pos_updates config info block' l s).1
  unfolding run_pos_updates
  run_pos_updates-SameVerdict block' [] s e k = SameVerdict-refl s.1
  run_pos_updates-SameVerdict block' ((n, a) ∷ rest) s e k =
      let one = pos_update-SameVerdict block' n a s e k.0 in
      SameVerdict-trans one (
        run_pos_updates-SameVerdict block' rest (pos_update config info block' n a s)
          (enforcing-SameVerdict config one e) k.1)

  run_runtime_action-SameVerdict :
      (block' already : Bool) (a : Action S) (s : Transaction S × RuleMessage)
      → enforcing config s.0 ≡ false
      → KeepsEngine a
      → SameVerdict s.0 (run_runtime_action config info block' already a s).0
  unfolding run_runtime_action
  run_runtime_action-SameVerdict block' already a s e k =
      ground (arith, execute_action-SameVerdict block' a false s e k)

  run_runtime_pos-SameVerdict :
      (block' already : Bool) (l : List (Action S)) (s : Transaction S × RuleMessage)
      → enforcing config s.0 ≡ false
      → AllKeep l
      → SameVerdict s.0 (run_runtime_pos config info block' already l s).0
  unfolding run_runtime_pos
  run_runtime_pos-SameVerdict block' already [] s e k = SameVerdict-refl s.0
  run_runtime_pos-SameVerdict block' already (a ∷ rest) s e k =
      let one = run_runtime_action-SameVerdict block' already a s e k.0 in
      SameVerdict-trans one (
        run_runtime_pos-SameVerdict block' already rest
          (run_runtime_action config info block' already a s) (enforcing-SameVerdict config one e)
          k.1)

  run_disruptive-SameVerdict :
      (block' already : Bool) (a : Option (Action S)) (s : Transaction S × RuleMessage)
      → enforcing config s.0 ≡ false
      → KeepsEngine? a
      → SameVerdict s.0 (run_disruptive config info block' already a s).0
  unfolding run_disruptive
  run_disruptive-SameVerdict block' already none s e k = SameVerdict-refl s.0
  run_disruptive-SameVerdict block' already (some a) s e k =
      ground (arith, execute_action-SameVerdict block' a false s e k)

-- Neither the default actions nor the actions that update rules change the mode.
pub record ConfigKeeps {S : Type 0} (config : RulesConfig S) : Type 0 where
  pub defaults_keep : (phase : ℕ) → AllKeep (config.default_actions phase)
  pub updates_keep : AllKeep-keyed config.exceptions.action_pos_update_target_by_id

-- Nor do the actions of the rule.
pub record RuleKeeps {S : Type 0} (r : RuleWithActions S) : Type 0 where
  pub runtime_keep : AllKeep r.actions_runtime_pos
  pub disruptive_keep : KeepsEngine? r.disruptive_action

module _ {S : Type 0} (config : RulesConfig S) (r : RuleWithActions S) where
  pub execute_independent-SameControl :
      (block' : Bool) (s : Transaction S × RuleMessage)
      → SameControl s.0 (execute_independent config r block' s).1
  unfolding execute_independent
  execute_independent-SameControl block' s =
      let t' = run_set_vars r.actions_set_var s.0 in
      let l = config.exceptions.action_pre_update_target_by_id in
      let s' = run_pre_updates config r.info l (block', t', s.1) in
      let s'' = run_descriptions r (s'.1, s'.2) in
      ground (
        arith,
        run_set_vars-SameControl r.actions_set_var s.0,
        run_pre_updates-SameControl config r.info l (block', t', s.1),
        run_descriptions-SameControl r (s'.1, s'.2),
        run_tags-SameControl r.actions_tag s'',
      )

  pub execute_after_full_match-SameVerdict :
      (block' : Bool) (s : Transaction S × RuleMessage)
      → ConfigKeeps config
      → RuleKeeps r
      → enforcing config s.0 ≡ false
      → SameVerdict s.0 (execute_after_full_match config r block' s).0
  unfolding execute_after_full_match
  execute_after_full_match-SameVerdict block' s c k e =
      let i = r.info in
      let l = config.exceptions.action_pos_update_target_by_id in
      let s₁ = run_defaults config i block' (config.default_actions i.phase) s in
      let h₁ = run_defaults-SameVerdict config i block' _ s e (c.defaults_keep i.phase) in
      let s₂ = run_tags r.actions_tag s₁ in
      let h₂ =
        SameVerdict-trans h₁ (SameControl-SameVerdict (run_tags-SameControl r.actions_tag s₁)) in
      let s₃ = run_pos_updates config i block' l (false, s₂.0, s₂.1) in
      let e₂ = enforcing-SameVerdict config h₂ e in
      let h₃ =
        SameVerdict-trans h₂
          (run_pos_updates-SameVerdict config i block' l (false, s₂.0, s₂.1) e₂ c.updates_keep) in
      let s₄ = run_descriptions r (s₃.1, s₃.2) in
      let h₄ =
        SameVerdict-trans h₃
          (SameControl-SameVerdict (run_descriptions-SameControl r (s₃.1, s₃.2))) in
      let e₄ = enforcing-SameVerdict config h₄ e in
      let s₅ = run_runtime_pos config i block' s₃.0 r.actions_runtime_pos s₄ in
      let h₅ =
        SameVerdict-trans h₄
          (run_runtime_pos-SameVerdict config i block' s₃.0 _ s₄ e₄ k.runtime_keep) in
      SameVerdict-trans h₅ (
        run_disruptive-SameVerdict config i block' s₃.0 r.disruptive_action s₅
          (enforcing-SameVerdict config h₅ e) k.disruptive_keep)
