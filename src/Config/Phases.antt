-- ===== src/Config/Phases.antt =====
-- The rules of each phase, and how those of another rule set are appended to them:
-- headers/modsecurity/rules.h and src/rules_set_phases.cc. A vector of identifiers that is sorted
-- and searched by std::binary_search is a list and its membership test.
use mod_security.Engine.Rule.{Rule, marker_rule, script, unconditional, with_operator}
use mod_security.Engine.State.{number_of_phases}
use mod_security.Prelude.{
  Bool, List, Option, [], false, if◌then◌else◌, leb, length, none, some, suc, true, zero, ℕ, ◌++◌,
  ◌==◌, ◌∷◌,
}
use mod_security.Prelude.Bytes.{Bytes}
use mod_security.Prelude.Int.{ltb_ℤ, negsuc, pos, ℤ, ◌+ℤ◌, ◌==ℤ◌}
use mod_security.Prelude.Text.{codes}
use mod_security.Utils.Number.{to_string_ℤ}

abbrev pub contains_int : ℤ → List ℤ → Bool
contains_int n [] = false
contains_int n (i ∷ ids) = if n ==ℤ i then true else contains_int n ids

unfoldable pub duplicated : ℤ → Bytes
unfolding to_string_ℤ
duplicated n = codes "Rule id: " ++ (to_string_ℤ n ++ codes " is duplicated\n")

-- RulesSetPhases: `m_rulesAtPhase`.
abbrev pub RulesSetPhases : Type 0 → Type 0
RulesSetPhases S = ℕ → List (Rule S)

-- What `append` leaves behind and answers.
pub record Appended (S : Type 0) : Type 0 where
  pub phases_after : RulesSetPhases S
  pub amount : ℤ
  pub append_error : Bytes

module _ {S : Type 0} where
  -- the identifiers of the rules of a phase that are a RuleWithOperator; those of the rules that are
  -- chained to them are not read
  unfoldable pub operator_ids : List (Rule S) → List ℤ
  operator_ids [] = []
  operator_ids (with_operator r children ∷ rest) = r.actions.info.rule_id ∷ operator_ids rest
  operator_ids (marker_rule name ∷ rest) = operator_ids rest
  operator_ids (unconditional r ∷ rest) = operator_ids rest
  operator_ids (script r lua ∷ rest) = operator_ids rest

  -- those of the first `n` phases: the vector of RulesSetPhases::append
  unfoldable pub ids_below : ℕ → RulesSetPhases S → List ℤ
  ids_below zero phases = []
  ids_below (suc n) phases = ids_below n phases ++ operator_ids (phases n)

  abbrev pub all_ids : RulesSetPhases S → List ℤ
  all_ids phases = ids_below number_of_phases phases

  -- the loop of Rules::append
  unfoldable pub find_duplicate : List ℤ → List (Rule S) → Option ℤ
  find_duplicate ids [] = none
  find_duplicate ids (with_operator r children ∷ rest) =
      let n = r.actions.info.rule_id in
      if contains_int n ids then some n else find_duplicate ids rest
  find_duplicate ids (marker_rule name ∷ rest) = find_duplicate ids rest
  find_duplicate ids (unconditional r ∷ rest) = find_duplicate ids rest
  find_duplicate ids (script r lua ∷ rest) = find_duplicate ids rest

  -- `m_rulesAtPhase[phase] = rules`
  abbrev pub set_phase_rules : ℕ → List (Rule S) → RulesSetPhases S → RulesSetPhases S
  set_phase_rules phase rules phases i = if i == phase then rules else phases i

  -- RulesSetPhases::insert, with Rules::insert
  unfoldable pub insert_rule : ℕ → Rule S → RulesSetPhases S → RulesSetPhases S × Bool
  insert_rule phase rule phases =
      if leb number_of_phases phase
      then (phases, false)
      else (set_phase_rules phase (phases phase ++ rule ∷ []) phases, true)

  -- Rules::append to the rules of a phase, behind its loop
  unfoldable pub append_rules : ℕ → List (Rule S) → Option ℤ → Appended S → Appended S
  unfolding duplicated
  append_rules phase from (some n) a = record a {
    amount = negsuc 0;
    append_error = a.append_error ++ duplicated n;
  }
  append_rules phase from none a = record a {
    phases_after = set_phase_rules phase (a.phases_after phase ++ from) a.phases_after;
    amount = a.amount +ℤ pos (length from);
  }

  -- the loop of RulesSetPhases::append over the first `n` phases
  unfoldable pub append_below :
      ℕ → List ℤ → RulesSetPhases S → RulesSetPhases S → Bytes → Appended S
  unfolding find_duplicate append_rules
  append_below zero ids from to error = record {
    phases_after = to;
    amount = pos 0;
    append_error = error;
  }
  append_below (suc n) ids from to error =
      let a = append_below n ids from to error in
      if ltb_ℤ a.amount (pos 0) then a else append_rules n (from n) (find_duplicate ids (from n)) a

  unfoldable pub append_phases : RulesSetPhases S → RulesSetPhases S → Bytes → Appended S
  unfolding ids_below append_below operator_ids
  append_phases from to error = append_below number_of_phases (all_ids to) from to error
