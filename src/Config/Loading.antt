-- ===== src/Config/Loading.antt =====
-- RulesSet::load: the identifiers of the rules behind any configuration.
use mod_security.Config.Driver.{
  Directive, Driver, LastRule, RulesBase, add_chained, add_directive, add_sec_action,
  add_sec_marker, add_sec_rule, add_sec_rule_script, add_starter, chain_or_start, chain_rule_at,
  chained_rule, complain, find_last, insert_markers, load_rules, merge_rules, new_base, new_driver,
  open_chain, parse, parse_rest, sec_action, sec_marker, sec_rule, sec_rule_script, unknown_phase,
}
use mod_security.Config.Identifiers.{
  IsUnique, count, count-absent, count-all_ids-insert_rule, count-all_ids-set_phase_rules,
}
use mod_security.Config.Merge.{append_phases-IsUnique}
use mod_security.Config.Phases.{
  RulesSetPhases, all_ids, contains_int, ids_below, insert_rule, operator_ids,
}
use mod_security.Engine.Action.{Action}
use mod_security.Engine.Rule.{
  Rule, RuleWithActions, RuleWithOperator, marker_rule, script, unconditional, with_operator,
}
use mod_security.Engine.State.{Transaction, number_of_phases}
use mod_security.Prelude.{
  Bool, Bool-cases, List, Option, [], ap, arith, false, if_ind, inl, inr, leb, none, refl, some,
  suc, true, zero, ℕ, ◌∷◌, ◌≡◌,
}
use mod_security.Prelude.Bytes.{Bytes}
use mod_security.Prelude.Int.{==ℤ_iff, negsuc, pos, ℤ, ◌==ℤ◌}

marker-ids : (S : Type 0) (name : Bytes) → operator_ids {S = S} (marker_rule name ∷ []) ≡ []
unfolding operator_ids
marker-ids S name = refl

module _ {S : Type 0} where
  operator_ids-chain_rule_at :
      (c : RuleWithOperator S) (n : ℕ) (rules : List (Rule S))
      → operator_ids (chain_rule_at c n rules) ≡ operator_ids rules
  unfolding operator_ids chain_rule_at
  operator_ids-chain_rule_at c n [] = refl
  operator_ids-chain_rule_at c zero (with_operator r l ∷ rest) = refl
  operator_ids-chain_rule_at c zero (marker_rule name ∷ rest) = refl
  operator_ids-chain_rule_at c zero (unconditional r ∷ rest) = refl
  operator_ids-chain_rule_at c zero (script r lua ∷ rest) = refl
  operator_ids-chain_rule_at c (suc n) (with_operator r l ∷ rest) =
      ap (λ l. r.actions.info.rule_id ∷ l) (operator_ids-chain_rule_at c n rest)
  operator_ids-chain_rule_at c (suc n) (marker_rule name ∷ rest) =
      operator_ids-chain_rule_at c n rest
  operator_ids-chain_rule_at c (suc n) (unconditional r ∷ rest) =
      operator_ids-chain_rule_at c n rest
  operator_ids-chain_rule_at c (suc n) (script r lua ∷ rest) = operator_ids-chain_rule_at c n rest

  unconditional-ids : (r : RuleWithActions S) → operator_ids (unconditional r ∷ []) ≡ []
  unfolding operator_ids
  unconditional-ids r = refl

  script-ids :
      (r : RuleWithActions S) (lua : Transaction S → S × Bool)
      → operator_ids (script r lua ∷ []) ≡ []
  unfolding operator_ids
  script-ids r lua = refl

  -- A rule of no identifier, and one of an identifier that is not there.
  insert_rule-IsUnique :
      (phase : ℕ) (rule : Rule S) (p : RulesSetPhases S)
      → operator_ids (rule ∷ []) ≡ []
      → IsUnique p
      → IsUnique (insert_rule phase rule p).0
  insert_rule-IsUnique phase rule p h u n =
      let b = count-all_ids-insert_rule phase rule p n in
      let z = ap (count n) h in let un = u n in omega (arith, b, z, un)

  insert_starter-IsUnique :
      (phase : ℕ) (r : RuleWithOperator S) (p : RulesSetPhases S)
      → contains_int r.actions.info.rule_id (all_ids p) ≡ false
      → IsUnique p
      → IsUnique (insert_rule phase (with_operator r []) p).0
  unfolding operator_ids
  insert_starter-IsUnique phase r p h u n =
      let i = r.actions.info.rule_id in
      let b = count-all_ids-insert_rule phase (with_operator r []) p n in
      let un = u n in
      elim (Bool-cases (n ==ℤ i)) [
        | inl y ↦
            let e = ap (λ x. count x (all_ids p)) ((==ℤ_iff n i).0 y) in
            let z = count-absent i (all_ids p) h in ground (arith, b, e, z)
        | inr d ↦ ground (arith, b, un)
      ]

  insert_markers-IsUnique :
      (k : ℕ) (name : Bytes) (p : RulesSetPhases S)
      → IsUnique p
      → IsUnique (insert_markers k name p)
  unfolding insert_markers
  insert_markers-IsUnique zero name p u = u
  insert_markers-IsUnique (suc k) name p u =
      insert_rule-IsUnique k (marker_rule name) (insert_markers k name p) (marker-ids S name)
        (insert_markers-IsUnique k name p u)

new_driver-IsUnique : (S U : Type 0) → IsUnique (new_driver {S = S} {U = U}).phases
unfolding new_driver new_base ids_below operator_ids
new_driver-IsUnique S U n = omega arith

module _ {S U : Type 0} where
  add_chained-IsUnique :
      (a : Option (Action S)) (l : Option LastRule) (parent r : RuleWithOperator S) (d : Driver S U)
      → IsUnique d.phases
      → IsUnique (add_chained a l parent r d).0.phases
  unfolding add_chained complain
  add_chained-IsUnique (some a) l parent r d u = u
  add_chained-IsUnique none none parent r d u = u
  add_chained-IsUnique none (some l) parent r d u = λ n.
      let e =
        operator_ids-chain_rule_at (chained_rule parent r) l.last_index (d.phases l.last_phase) in
      let rules = chain_rule_at (chained_rule parent r) l.last_index (d.phases l.last_phase) in
      let b = count-all_ids-set_phase_rules l.last_phase rules d.phases n e in
      let un = u n in omega (arith, b, un)

  add_starter-IsUnique :
      (r : RuleWithOperator S) (d : Driver S U)
      → IsUnique d.phases
      → IsUnique (add_starter r d).0.phases
  unfolding add_starter complain
  add_starter-IsUnique r d u = elim (Bool-cases (r.actions.info.rule_id ==ℤ pos 0)) [
    | inl y ↦ rw y u
    | inr z ↦ elim (Bool-cases (contains_int r.actions.info.rule_id (all_ids d.phases))) [
      | inl y ↦ rw (z, y) u
      | inr f ↦ rw (z, f) (insert_starter-IsUnique r.actions.info.phase r d.phases f u)
    ]
  ]

  chain_or_start-IsUnique :
      (o : Option (RuleWithOperator S)) (r : RuleWithOperator S) (d : Driver S U)
      → IsUnique d.phases
      → IsUnique (chain_or_start o r d).0.phases
  unfolding chain_or_start
  chain_or_start-IsUnique none r d u = add_starter-IsUnique r d u
  chain_or_start-IsUnique (some parent) r d u =
      add_chained-IsUnique r.actions.disruptive_action d.last_rule parent r d u

  add_directive-IsUnique :
      (i : Directive S) (d : Driver S U) → IsUnique d.phases → IsUnique (add_directive i d).0.phases
  unfolding add_directive add_sec_rule add_sec_action add_sec_rule_script add_sec_marker
      unknown_phase complain
  add_directive-IsUnique (sec_rule r) d u =
      elim (Bool-cases (leb number_of_phases r.actions.info.phase)) [
        | inl y ↦ rw y u
        | inr n ↦ rw n (chain_or_start-IsUnique (open_chain (find_last d.last_rule d.phases)) r d u)
      ]
  add_directive-IsUnique (sec_action r) d u =
      elim (Bool-cases (leb number_of_phases r.info.phase)) [
        | inl y ↦ rw y u
        | inr n ↦
            rw n
              (insert_rule-IsUnique r.info.phase (unconditional r) d.phases (unconditional-ids r) u)
      ]
  add_directive-IsUnique (sec_rule_script r lua) d u =
      insert_rule-IsUnique r.info.phase (script r lua) d.phases (script-ids r lua) u
  add_directive-IsUnique (sec_marker name) d u =
      insert_markers-IsUnique number_of_phases name d.phases u

  parse_rest-IsUnique :
      (directives : List (Directive S)) (s : Driver S U × Bool)
      → IsUnique s.0.phases
      → IsUnique (parse_rest directives s).0.phases
  unfolding parse_rest
  parse_rest-IsUnique [] s u = u
  parse_rest-IsUnique (i ∷ rest) s u =
      if_ind (λ (z : Driver S U × Bool). IsUnique z.0.phases) s.1
        (parse_rest-IsUnique rest (add_directive i s.0) (add_directive-IsUnique i s.0 u)) u

  -- Whatever directives are loaded into a rule set, whether they are taken or refused at any of them
  -- or in the merge, behind it no two of the rules with an operator that stand in the phases
  -- themselves, which a rule that is chained to another does not, have the same identifier; if no two
  -- of them had before. The identifiers of chained rules are not counted.
  pub load_rules-IsUnique :
      (directives : List (Directive S)) (to : RulesBase S U)
      → IsUnique to.phases
      → IsUnique (load_rules directives to).0.phases
  unfolding load_rules parse merge_rules
  load_rules-IsUnique directives to u =
      let s : Driver S U × Bool = (record new_driver { last_rule = none }, true) in
      let p = parse_rest directives s in
      let new = parse_rest-IsUnique directives s (new_driver-IsUnique S U) in
      let m = append_phases-IsUnique p.0.phases to.phases to.parser_error new u in
      if_ind (λ (z : RulesBase S U × ℤ). IsUnique z.0.phases) p.1
        (if_ind (λ (z : RulesBase S U × ℤ). IsUnique z.0.phases)
          ((merge_rules p.0.base to).1 ==ℤ negsuc 0) m m)
        u
