-- ===== src/Config/Tests.antt =====
-- What the theorems on the loading of rules say of small configurations.
use mod_security.Config.Accepted.{AreAcceptable, load_rules-AreAcceptable, of_phase}
use mod_security.Config.Chains.{ArePlaced, load_rules-ArePlaced}
use mod_security.Config.Driver.{RulesBase, add_starter, load_rules, new_base, sec_action, sec_rule}
use mod_security.Config.Identifiers.{IsUnique}
use mod_security.Config.Loading.{load_rules-IsUnique}
use mod_security.Config.Merge.{append_phases-overlaps, overlaps, size_below}
use mod_security.Config.Phases.{
  RulesSetPhases, all_ids, append_below, append_phases, ids_below, insert_rule, operator_ids,
}
use mod_security.Config.Properties.{merge_types}
use mod_security.Engine.Action.{chain, deny}
use mod_security.Engine.Rule.{RuleWithOperator, new_rule, with_operator}
use mod_security.Engine.State.{number_of_phases, request_headers_phase}
use mod_security.Engine.Tests.Samples.{sample_rule}
use mod_security.Prelude.{
  [], arith, false, length, map, refl, true, ℕ, ◌++◌, ◌<◌, ◌↔◌, ◌∷◌, ◌≡◌, ◌≢◌,
}
use mod_security.Prelude.Int.{negsuc, pos, ◌+ℤ◌}
use mod_security.Prelude.Text.{codes}

abbrev base : RulesBase ℕ ℕ
base = new_base ℕ ℕ

abbrev one : RuleWithOperator ℕ
one = sample_rule (pos 1) 65 []

abbrev starter : RuleWithOperator ℕ
starter = sample_rule (pos 2) 65 (chain ∷ [])

abbrev denying_child : RuleWithOperator ℕ
denying_child = sample_rule (pos 0) 66 (deny ∷ [])

abbrev child : RuleWithOperator ℕ
child = sample_rule (pos 0) 66 []

-- A chain is a rule of the phase, and what is chained to it is not.
chain_loads :
    length (
      (load_rules (map sec_rule (one ∷ (starter ∷ (child ∷ [])))) base).0.phases
        request_headers_phase)
    ≡ 2
unfolding load_rules new_rule add_starter insert_rule ids_below operator_ids append_phases
    append_below new_base ◌+ℤ◌
chain_loads = refl

-- A disruptive action in a chained rule, and an identifier that is there twice.
refused :
    ((load_rules (map sec_rule (starter ∷ (denying_child ∷ []))) base).1 ≡ negsuc 0)
    × ((load_rules (map sec_rule (one ∷ (one ∷ []))) base).0.parser_error
        ≡ codes "Rule id: 1 is duplicated\n")
unfolding load_rules new_rule add_starter insert_rule ids_below operator_ids append_phases new_base
refused = (refl, refl)

-- The identifier of a SecAction is not looked at.
action_twice :
    length (
      (load_rules (sec_action one.actions ∷ (sec_action one.actions ∷ [])) base).0.phases
        request_headers_phase)
    ≡ 2
unfolding load_rules new_rule insert_rule ids_below operator_ids append_phases new_base ◌+ℤ◌
action_twice = refl

-- Types that are cleared and then given are lost in the merge.
cleared_types :
    (merge_types
      (record { set_given = false; is_clear = false; members = [] })
      (record { set_given = true; is_clear = true; members = codes "text/html" ∷ [] })).members
    ≡ []
unfolding merge_types
cleared_types = refl

base-IsUnique : IsUnique base.phases
unfolding ids_below operator_ids new_base
base-IsUnique n = omega arith

base-ArePlaced : ArePlaced base.phases
unfolding new_base
base-ArePlaced i = tt

load_rules-IsUnique_example : IsUnique (load_rules (map sec_rule (one ∷ (one ∷ []))) base).0.phases
load_rules-IsUnique_example =
    load_rules-IsUnique (map sec_rule (one ∷ (one ∷ []))) base base-IsUnique

load_rules-ArePlaced_example :
    ArePlaced (load_rules (map sec_rule (starter ∷ (child ∷ []))) base).0.phases
load_rules-ArePlaced_example =
    load_rules-ArePlaced (map sec_rule (starter ∷ (child ∷ []))) base base-ArePlaced

one-AreAcceptable : AreAcceptable (all_ids base.phases) (one ∷ [])
unfolding ids_below operator_ids new_base new_rule
one-AreAcceptable = (omega arith, λ e. ground arith, refl, refl, tt)

load_rules-AreAcceptable_example :
    ((load_rules (map sec_rule (one ∷ [])) base).1 ≢ negsuc 0)
    × ((i : ℕ)
        → i < number_of_phases
        → (load_rules (map sec_rule (one ∷ [])) base).0.phases i
          ≡ base.phases i ++ of_phase i (one ∷ []))
load_rules-AreAcceptable_example = load_rules-AreAcceptable (one ∷ []) base one-AreAcceptable

abbrev both : RulesSetPhases ℕ
both i = with_operator one [] ∷ []

append_phases-overlaps_example :
    let a = append_phases both base.phases [] in
    ((a.amount ≡ negsuc 0) ↔ (overlaps (all_ids base.phases) (all_ids both) ≡ true))
    × (overlaps (all_ids base.phases) (all_ids both) ≡ false
        → (a.amount ≡ pos (size_below number_of_phases both))
          × ((i : ℕ) → i < number_of_phases → a.phases_after i ≡ base.phases i ++ both i))
append_phases-overlaps_example = append_phases-overlaps both base.phases []
