-- ===== src/Engine/Chain.antt =====
-- Rules that do not match, and chains of rules.
use mod_security.Engine.Evaluate.{Matching, evaluate_rule, finish_rule, match_rule, removed_by_id}
use mod_security.Engine.Matching.{match_rule-SameControl}
use mod_security.Engine.Rule.{RuleWithOperator, RulesConfig}
use mod_security.Engine.State.{RuleMessage, Transaction}
use mod_security.Engine.Verdict.{SameControl, SameControl-trans}
use mod_security.Prelude.{
  Bool, List, [], arith, false, if_ind, inl, inr, none, some, subst, sym, ◌∷◌, ◌≡◌, ◌⊎◌,
}

module _ {S : Type 0} (config : RulesConfig S) where
  finish_rule-false :
      (r : RuleWithOperator S) (s : Matching S)
      → (finish_rule config r s none).0 ≡ false
      → (finish_rule config r s none).1 ≡ s.trans
  unfolding finish_rule
  finish_rule-false r s e = ground arith

  finish_chained-false :
      (r : RuleWithOperator S) (s : Matching S) (child : Bool × Transaction S × RuleMessage)
      → (finish_rule config r s (some child)).0 ≡ false
      → ((finish_rule config r s (some child)).1 ≡ s.trans)
        ⊎ ((finish_rule config r s (some child)).1 ≡ child.1) × (child.0 ≡ false)
  unfolding finish_rule
  finish_chained-false r s child e = ground arith

  -- A rule that does not match, or a chain of which some rule does not match, decides nothing: where
  -- `evaluate` answers false, the intervention, the allow type, the mode of the engine, skip and
  -- skipAfter and the lists of removed rules and targets are as before.
  pub evaluate_rule_unmatched :
      (r : RuleWithOperator S) (children : List (RuleWithOperator S))
      (s : Transaction S × RuleMessage)
      → (evaluate_rule config r children s).0 ≡ false
      → SameControl s.0 (evaluate_rule config r children s).1
  unfolding evaluate_rule
  evaluate_rule_unmatched r [] s =
      let t' = record (s.0) { matched = [] } in
      let h₀ : SameControl s.0 t' = ground arith in
      let h = SameControl-trans h₀ (match_rule-SameControl config r (t', s.1)) in
      let m = match_rule config r (t', s.1) in
      if_ind (λ (z : Bool × Transaction S × RuleMessage). z.0 ≡ false → SameControl s.0 z.1)
        (removed_by_id config r.info.rule_id t') (λ e. cc)
        (λ e. subst (SameControl s.0) (sym (finish_rule-false r m e)) h)
  evaluate_rule_unmatched r (child ∷ rest) s =
      let t' = record (s.0) { matched = [] } in
      let h₀ : SameControl s.0 t' = ground arith in
      let h = SameControl-trans h₀ (match_rule-SameControl config r (t', s.1)) in
      let m = match_rule config r (t', s.1) in
      let child' = evaluate_rule config child rest (m.trans, m.rule_message) in
      let ih = evaluate_rule_unmatched child rest (m.trans, m.rule_message) in
      if_ind (λ (z : Bool × Transaction S × RuleMessage). z.0 ≡ false → SameControl s.0 z.1)
        (removed_by_id config r.info.rule_id t') (λ e. cc)
        (λ e. elim (finish_chained-false r m child' e) [
          | inl same ↦ subst (SameControl s.0) (sym same) h
          | inr (same, unmatched) ↦
              subst (SameControl s.0) (sym same) (SameControl-trans h (ih unmatched))
        ])
