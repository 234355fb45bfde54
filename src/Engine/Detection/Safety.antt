-- ===== src/Engine/Detection/Safety.antt =====
-- Evaluating rules and whole phases while the engine is not On makes no intervention.
use mod_security.Engine.Detection.{
  ConfigKeeps, RuleKeeps, execute_after_full_match-SameVerdict, execute_independent-SameControl,
}
use mod_security.Engine.Evaluate.{
  Matching, end_exec, evaluate, evaluate_rule, evaluate_script, evaluate_unconditional, finish_rule,
  match_rule, removed_by_id,
}
use mod_security.Engine.Execute.{execute_after_full_match, execute_independent}
use mod_security.Engine.Matching.{match_rule-SameControl}
use mod_security.Engine.Rule.{
  Rule, RuleWithActions, RuleWithOperator, RulesConfig, RulesSet, marker_rule, script,
  unconditional, with_operator,
}
use mod_security.Engine.RulesSet.{evaluate_phase, run_rules, step_rule}
use mod_security.Engine.State.{RuleMessage, Transaction, new_message, none_allow_type}
use mod_security.Engine.Verdict.{
  SameControl-SameVerdict, SameVerdict, SameVerdict-refl, SameVerdict-trans, enforcing,
  enforcing-SameVerdict, perform_logging-SameControl,
}
use mod_security.Prelude.{Bool, List, [], arith, false, if_ind, none, not, some, true, ℕ, ◌∷◌, ◌≡◌}

-- The action lists of a rule and of the rules chained to it keep the mode.
abbrev pub ChainKeeps : {S : Type 0} → List (RuleWithOperator S) → Type 0
ChainKeeps [] = Unit
ChainKeeps (r ∷ rest) = RuleKeeps r.actions × ChainKeeps rest

abbrev pub Keeps : {S : Type 0} → Rule S → Type 0
Keeps (marker_rule name) = Unit
Keeps (with_operator r children) = RuleKeeps r.actions × ChainKeeps children
Keeps (unconditional r) = RuleKeeps r
Keeps (script r lua) = RuleKeeps r

abbrev pub AllRulesKeep : {S : Type 0} → List (Rule S) → Type 0
AllRulesKeep [] = Unit
AllRulesKeep (r ∷ rest) = Keeps r × AllRulesKeep rest

module _ {S : Type 0} (config : RulesConfig S) (c : ConfigKeeps config) where
  end_exec-SameVerdict :
      (r : RuleWithOperator S) (s : Matching S)
      → RuleKeeps r.actions
      → enforcing config s.trans ≡ false
      → SameVerdict s.trans (end_exec config r s).1
  unfolding end_exec
  end_exec-SameVerdict r s k e =
      let s' =
        execute_after_full_match config r.actions s.contains_block (s.trans, s.rule_message) in
      SameVerdict-trans
        (execute_after_full_match-SameVerdict config r.actions s.contains_block
          (s.trans, s.rule_message) c k e)
        (SameControl-SameVerdict (perform_logging-SameControl r.actions true true s'))

  finish_rule-SameVerdict :
      (r : RuleWithOperator S) (s : Matching S) (t : Transaction S)
      → RuleKeeps r.actions
      → SameVerdict t s.trans
      → enforcing config t ≡ false
      → SameVerdict t (finish_rule config r s none).1
  unfolding finish_rule
  finish_rule-SameVerdict r s t k h e =
      let x = end_exec-SameVerdict r s k (enforcing-SameVerdict config h e) in
      let P = λ (z : Bool × Transaction S × RuleMessage). SameVerdict t z.1 in
      if_ind P (not s.global_ret) h (if_ind P (not r.is_chained) (SameVerdict-trans h x) h)

  finish_chained-SameVerdict :
      (r : RuleWithOperator S) (s : Matching S) (t : Transaction S)
      (child : Bool × Transaction S × RuleMessage)
      → RuleKeeps r.actions
      → SameVerdict t s.trans
      → SameVerdict t child.1
      → enforcing config t ≡ false
      → SameVerdict t (finish_rule config r s (some child)).1
  unfolding finish_rule
  finish_chained-SameVerdict r s t child k h h' e =
      let s' = record s { trans = child.1; rule_message = child.2 } in
      let x = end_exec-SameVerdict r s k (enforcing-SameVerdict config h e) in
      let x' = end_exec-SameVerdict r s' k (enforcing-SameVerdict config h' e) in
      let P = λ (z : Bool × Transaction S × RuleMessage). SameVerdict t z.1 in
      if_ind P (not s.global_ret) h (
        if_ind P (not r.is_chained) (SameVerdict-trans h x)
          (if_ind P child.0 (SameVerdict-trans h' x') h'))

  evaluate_rule-SameVerdict :
      (r : RuleWithOperator S) (children : List (RuleWithOperator S))
      (s : Transaction S × RuleMessage)
      → RuleKeeps r.actions
      → ChainKeeps children
      → enforcing config s.0 ≡ false
      → SameVerdict s.0 (evaluate_rule config r children s).1
  unfolding evaluate_rule
  evaluate_rule-SameVerdict r [] s k ks e =
      let t' = record (s.0) { matched = [] } in
      let h₀ : SameVerdict s.0 t' = ground arith in
      let h =
        SameVerdict-trans h₀
          (SameControl-SameVerdict (match_rule-SameControl config r (t', s.1))) in
      if_ind (λ (z : Bool × Transaction S × RuleMessage). SameVerdict s.0 z.1)
        (removed_by_id config r.info.rule_id t') h₀
        (finish_rule-SameVerdict r (match_rule config r (t', s.1)) s.0 k h e)
  evaluate_rule-SameVerdict r (child ∷ rest) s k ks e =
      let t' = record (s.0) { matched = [] } in
      let h₀ : SameVerdict s.0 t' = ground arith in
      let h =
        SameVerdict-trans h₀
          (SameControl-SameVerdict (match_rule-SameControl config r (t', s.1))) in
      let m = match_rule config r (t', s.1) in
      let h' = SameVerdict-trans h (
        evaluate_rule-SameVerdict child rest (m.trans, m.rule_message) ks.0 ks.1
          (enforcing-SameVerdict config h e)) in
      if_ind (λ (z : Bool × Transaction S × RuleMessage). SameVerdict s.0 z.1)
        (removed_by_id config r.info.rule_id t') h₀
        (finish_chained-SameVerdict r m s.0
          (evaluate_rule config child rest (m.trans, m.rule_message)) k h h' e)

  evaluate_unconditional-SameVerdict :
      (r : RuleWithActions S) (s : Transaction S × RuleMessage)
      → RuleKeeps r
      → enforcing config s.0 ≡ false
      → SameVerdict s.0 (evaluate_unconditional config r s).1
  unfolding evaluate_unconditional
  evaluate_unconditional-SameVerdict r s k e =
      let t = record (s.0) { matched = [] } in
      let h₀ : SameVerdict s.0 t = ground arith in
      let s₁ = execute_independent config r false (t, s.1) in
      let h₁ =
        SameVerdict-trans h₀
          (SameControl-SameVerdict (execute_independent-SameControl config r false (t, s.1))) in
      let e₁ = enforcing-SameVerdict config h₁ e in
      let s₂ = execute_after_full_match config r s₁.0 (s₁.1, s₁.2) in
      let h₂ = execute_after_full_match-SameVerdict config r s₁.0 (s₁.1, s₁.2) c k e₁ in
      SameVerdict-trans (SameVerdict-trans h₁ h₂)
        (SameControl-SameVerdict (perform_logging-SameControl r true false s₂))

  evaluate_script-SameVerdict :
      (r : RuleWithActions S) (lua : Transaction S → S × Bool) (s : Transaction S × RuleMessage)
      → RuleKeeps r
      → enforcing config s.0 ≡ false
      → SameVerdict s.0 (evaluate_script config r lua s).1
  unfolding evaluate_script
  evaluate_script-SameVerdict r lua s k e =
      let s₁ = execute_independent config r false s in
      let h₁ = SameControl-SameVerdict (execute_independent-SameControl config r false s) in
      let ran = record (s₁.1) { store = (lua s₁.1).0 } in
      let h₀ : SameVerdict s₁.1 ran = ground arith in
      let h₂ = SameVerdict-trans h₁ h₀ in
      let h₃ =
        execute_after_full_match-SameVerdict config r s₁.0 (ran, s₁.2) c k
          (enforcing-SameVerdict config h₂ e) in
      if_ind (λ (z : Bool × Transaction S × RuleMessage). SameVerdict s.0 z.1) (lua s₁.1).1
        (SameVerdict-trans h₂ h₃) h₂

  evaluate-SameVerdict :
      (rule : Rule S) (t : Transaction S)
      → Keeps rule
      → enforcing config t ≡ false
      → SameVerdict t (evaluate config rule t)
  unfolding evaluate
  evaluate-SameVerdict (marker_rule name) t k e = ground arith
  evaluate-SameVerdict (with_operator r children) t k e =
      evaluate_rule-SameVerdict r children (t, new_message r.info) k.0 k.1 e
  evaluate-SameVerdict (unconditional r) t k e =
      evaluate_unconditional-SameVerdict r (t, new_message r.info) k e
  evaluate-SameVerdict (script r lua) t k e =
      evaluate_script-SameVerdict r lua (t, new_message r.info) k e

  step_rule-SameVerdict :
      (rule : Rule S) (t : Transaction S)
      → Keeps rule
      → enforcing config t ≡ false
      → SameVerdict t (step_rule config rule t).0
  unfolding step_rule
  step_rule-SameVerdict rule t k e = ground (arith, evaluate-SameVerdict rule t k e)

  run_rules-SameVerdict :
      (rules : List (Rule S)) (t : Transaction S)
      → AllRulesKeep rules
      → enforcing config t ≡ false
      → SameVerdict t (run_rules config rules t)
  unfolding run_rules
  run_rules-SameVerdict [] t k e = SameVerdict-refl t
  run_rules-SameVerdict (rule ∷ rest) t k e =
      let h = step_rule-SameVerdict rule t k.0 e in
      let t' = (step_rule config rule t).0 in
      if_ind (SameVerdict t) (step_rule config rule t).1 h
        (SameVerdict-trans h (run_rules-SameVerdict rest t' k.1 (enforcing-SameVerdict config h e)))

-- While the engine is not On (it is off, or in DetectionOnly mode), the evaluation of a phase makes
-- no intervention: whether the request is disrupted, the redirection and the log text of the
-- intervention are those from before, whatever the operators, the variables and the scripts answer,
-- if no default action, no action that updates a rule and no action of a rule of the phase is a
-- ctl:ruleEngine. The mode is unchanged, too.
pub evaluate_phase_not_enforcing :
    {S : Type 0} (rules : RulesSet S) (phase : ℕ) (t : Transaction S)
    → ConfigKeeps rules.config
    → AllRulesKeep (rules.rules_at_phase phase)
    → enforcing rules.config t ≡ false
    → ((evaluate_phase rules phase t).it.disruptive ≡ t.it.disruptive)
      × ((evaluate_phase rules phase t).it.url ≡ t.it.url)
      × ((evaluate_phase rules phase t).it.log ≡ t.it.log)
      × ((evaluate_phase rules phase t).sec_rule_engine ≡ t.sec_rule_engine)
unfolding evaluate_phase
evaluate_phase_not_enforcing rules phase t c k e = ground (
  arith,
  run_rules-SameVerdict rules.config c (rules.rules_at_phase phase)
      (record t { allow_type = none_allow_type }) k e,
)
