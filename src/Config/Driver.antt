-- ===== src/Config/Driver.antt =====
-- Parser::Driver (src/parser/driver.cc): what it does with each rule, action, script and marker of a
-- configuration; and RulesSet::load and RulesSet::merge (src/rules_set.cc), which take its rules
-- over. The grammar that makes the directives from text is not in it.
use mod_security.Config.Phases.{
  RulesSetPhases, all_ids, append_phases, contains_int, duplicated, insert_rule, set_phase_rules,
}
use mod_security.Config.Properties.{RulesSetProperties, merge_properties, new_properties}
use mod_security.Engine.Action.{Action}
use mod_security.Engine.Rule.{
  Rule, RuleWithActions, RuleWithOperator, marker_rule, script, unconditional, with_operator,
}
use mod_security.Engine.State.{Transaction, number_of_phases}
use mod_security.Prelude.{
  Bool, List, Option, [], false, get_elem?, if◌then◌else◌, leb, length, none, some, suc, true, zero,
  ℕ, ◌++◌, ◌∷◌,
}
use mod_security.Prelude.Bytes.{Bytes}
use mod_security.Prelude.Int.{negsuc, pos, ℤ, ◌==ℤ◌}
use mod_security.Prelude.Text.{codes}
use mod_security.Utils.Number.{to_string}

-- Where m_lastRule points: into a phase, at the rule of a position there or the last one that is
-- chained to it.
pub record LastRule : Type 0 where
  pub last_phase : ℕ
  pub last_index : ℕ

-- RulesSetProperties with the rules of each phase: what a Driver and a RulesSet share.
pub record RulesBase (S U : Type 0) : Type 0 where
  pub phases : RulesSetPhases S
  pub properties : RulesSetProperties S U
  pub parser_error : Bytes

pub record Driver (S U : Type 0) : Type 0 where
  pub base : RulesBase S U
  pub open base use *
  pub last_rule : Option LastRule

-- The directives that make rules, as the grammar hands them over.
pub data Directive (S : Type 0) : Type 0 where
  sec_rule : RuleWithOperator S → Directive S
  sec_action : RuleWithActions S → Directive S
  sec_rule_script : RuleWithActions S → (Transaction S → S × Bool) → Directive S
  sec_marker : Bytes → Directive S

module _ {S : Type 0} where
  -- the last rule of a chain
  unfoldable pub chain_end : RuleWithOperator S → List (RuleWithOperator S) → RuleWithOperator S
  chain_end r [] = r
  chain_end r (c ∷ rest) = chain_end c rest

  -- `m_chainedRuleChild = r` on the last rule of a chain
  unfoldable pub chain_rule : RuleWithOperator S → Rule S → Rule S
  chain_rule c (with_operator r children) = with_operator r (children ++ c ∷ [])
  chain_rule c rule = rule

  unfoldable pub chain_rule_at : RuleWithOperator S → ℕ → List (Rule S) → List (Rule S)
  unfolding chain_rule
  chain_rule_at c n [] = []
  chain_rule_at c zero (rule ∷ rest) = chain_rule c rule ∷ rest
  chain_rule_at c (suc n) (rule ∷ rest) = rule ∷ chain_rule_at c n rest

  -- the rule that m_lastRule points to
  unfoldable pub rule_end : Option (Rule S) → Option (RuleWithOperator S)
  unfolding chain_end
  rule_end (some (with_operator r children)) = some (chain_end r children)
  rule_end _ = none

  unfoldable pub find_last : Option LastRule → RulesSetPhases S → Option (RuleWithOperator S)
  unfolding rule_end
  find_last none phases = none
  find_last (some l) phases = rule_end (get_elem? (phases l.last_phase) l.last_index)

  -- the rule to which the next SecRule is chained
  unfoldable pub open_chain : Option (RuleWithOperator S) → Option (RuleWithOperator S)
  open_chain none = none
  open_chain (some r) = if r.actions.is_chained then some r else none

  -- a rule as it is chained: in the phase of the one before it
  abbrev pub chained_rule : RuleWithOperator S → RuleWithOperator S → RuleWithOperator S
  chained_rule parent r = record r {
    actions = record (r.actions) {
      info = record (r.actions.info) { phase = parent.actions.info.phase };
      has_parent = true;
    };
  }

  -- the loop of addSecMarker over the first `n` phases
  unfoldable pub insert_markers : ℕ → Bytes → RulesSetPhases S → RulesSetPhases S
  insert_markers zero name phases = phases
  insert_markers (suc n) name phases =
      (insert_rule n (marker_rule name) (insert_markers n name phases)).0

unfoldable pub new_base : (S U : Type 0) → RulesBase S U
unfolding new_properties
new_base S U = record { phases = λ i. []; properties = new_properties S U; parser_error = [] }

module _ {S U : Type 0} where
  -- the constructor
  unfoldable pub new_driver : Driver S U
  unfolding new_base
  new_driver = record { base = new_base S U; last_rule = none }

  unfoldable pub complain : Bytes → Driver S U → Driver S U
  complain words d = record d { base = record (d.base) { parser_error = d.parser_error ++ words } }

  abbrev pub with_phases : RulesSetPhases S → Driver S U → Driver S U
  with_phases phases d = record d { base = record (d.base) { phases = phases } }

  unfoldable pub unknown_phase : ℕ → Driver S U → Driver S U × Bool
  unfolding complain to_string
  unknown_phase phase d =
      (complain (codes "Unknown phase: " ++ (to_string phase ++ codes "\n")) d, false)

  -- the branch of addSecRule for a rule that is chained; the first argument is its disruptive action
  unfoldable pub add_chained :
      Option (Action S)
      → Option LastRule
      → RuleWithOperator S
      → RuleWithOperator S
      → Driver S U
      → Driver S U × Bool
  unfolding complain chain_rule_at
  add_chained (some a) l parent r d =
      (complain (codes "Disruptive actions can only be specified by chain starter rules.") d, false)
  add_chained none none parent r d = (d, true)
  add_chained none (some l) parent r d =
      let rules = chain_rule_at (chained_rule parent r) l.last_index (d.phases l.last_phase) in
      (with_phases (set_phase_rules l.last_phase rules d.phases) d, true)

  -- the rest of addSecRule, for a rule that is not chained
  unfoldable pub add_starter : RuleWithOperator S → Driver S U → Driver S U × Bool
  unfolding complain duplicated to_string
  add_starter r d =
      let info = r.actions.info in
      if info.rule_id ==ℤ pos 0
      then (
        complain
            (codes "Rules must have an ID. File: "
              ++ (info.file_name
                  ++ (codes " at line: " ++ (to_string info.line_number ++ codes "\n"))))
            d,
        false,
      )
      else (if contains_int info.rule_id (all_ids d.phases)
          then (complain (duplicated info.rule_id) d, false)
          else (
            record (with_phases (insert_rule info.phase (with_operator r []) d.phases).0 d) {
              last_rule =
                  some
                    (record { last_phase = info.phase; last_index = length (d.phases info.phase) });
            },
            true,
          ))

  unfoldable pub chain_or_start :
      Option (RuleWithOperator S) → RuleWithOperator S → Driver S U → Driver S U × Bool
  unfolding add_chained add_starter
  chain_or_start (some parent) r d = add_chained r.actions.disruptive_action d.last_rule parent r d
  chain_or_start none r d = add_starter r d

  unfoldable pub add_sec_rule : RuleWithOperator S → Driver S U → Driver S U × Bool
  unfolding unknown_phase open_chain find_last chain_or_start
  add_sec_rule r d =
      if leb number_of_phases r.actions.info.phase
      then unknown_phase r.actions.info.phase d
      else chain_or_start (open_chain (find_last d.last_rule d.phases)) r d

  unfoldable pub add_sec_action : RuleWithActions S → Driver S U → Driver S U × Bool
  unfolding unknown_phase
  add_sec_action r d =
      if leb number_of_phases r.info.phase
      then unknown_phase r.info.phase d
      else (with_phases (insert_rule r.info.phase (unconditional r) d.phases).0 d, true)

  unfoldable pub add_sec_rule_script :
      RuleWithActions S → (Transaction S → S × Bool) → Driver S U → Driver S U × Bool
  add_sec_rule_script r lua d =
      (with_phases (insert_rule r.info.phase (script r lua) d.phases).0 d, true)

  unfoldable pub add_sec_marker : Bytes → Driver S U → Driver S U
  unfolding insert_markers
  add_sec_marker name d = with_phases (insert_markers number_of_phases name d.phases) d

  -- The grammar's actions: with false the parser stops. What addSecAction answers is not read.
  unfoldable pub add_directive : Directive S → Driver S U → Driver S U × Bool
  unfolding add_sec_rule add_sec_action add_sec_rule_script add_sec_marker
  add_directive (sec_rule r) d = add_sec_rule r d
  add_directive (sec_action r) d = ((add_sec_action r d).0, true)
  add_directive (sec_rule_script r lua) d = add_sec_rule_script r lua d
  add_directive (sec_marker name) d = (add_sec_marker name d, true)

  unfoldable pub parse_rest : List (Directive S) → Driver S U × Bool → Driver S U × Bool
  unfolding add_directive
  parse_rest [] s = s
  parse_rest (i ∷ rest) s = if s.1 then parse_rest rest (add_directive i s.0) else s

  -- Driver::parse
  unfoldable pub parse : List (Directive S) → Driver S U → Driver S U × Bool
  unfolding parse_rest
  parse directives d = parse_rest directives (record d { last_rule = none }, true)

  -- RulesSet::merge
  unfoldable pub merge_rules : RulesBase S U → RulesBase S U → RulesBase S U × ℤ
  unfolding append_phases merge_properties
  merge_rules from to =
      let a = append_phases from.phases to.phases to.parser_error in
      (
        record {
          phases = a.phases_after;
          properties = merge_properties from.properties to.properties;
          parser_error = a.append_error;
        },
        a.amount,
      )

  abbrev pub add_error : Bytes → RulesBase S U → RulesBase S U
  add_error words b = record b { parser_error = b.parser_error ++ words }

  -- RulesSet::load
  unfoldable pub load_rules : List (Directive S) → RulesBase S U → RulesBase S U × ℤ
  unfolding parse merge_rules new_driver
  load_rules directives to =
      let p = parse directives new_driver in
      if p.1
      then (let m = merge_rules p.0.base to in
          if m.1 ==ℤ negsuc 0 then (add_error p.0.parser_error m.0, negsuc 0) else m)
      else (add_error p.0.parser_error to, negsuc 0)
