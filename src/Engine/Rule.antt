-- ===== src/Engine/Rule.antt =====
-- Rules: headers/modsecurity/rule_with_actions.h, src/rule_with_operator.h, rule_script.h,
-- rule_marker.h, and what they read of the rule set.
use mod_security.Engine.Action.{
  Action, Transformation, allow, block, capture, chain, deny, drop, log_data, msg, multi_match,
  pass, redirect, set_accuracy, set_maturity, set_phase, set_rev, set_rule_id, set_var, set_ver,
  severity_action, tag, transformation,
}
use mod_security.Engine.Exceptions.{RulesExceptions}
use mod_security.Engine.State.{RuleEngine, RuleInfo, Transaction, request_headers_phase}
use mod_security.Engine.Variable.{RunTimeString, Variable, expand}
use mod_security.Prelude.{
  Bool, List, Option, [], false, if◌then◌else◌, none, some, true, ℕ, ◌++◌, ◌∷◌,
}
use mod_security.Prelude.Bytes.{Bytes, str_eq}
use mod_security.Prelude.Int.{pos, ℤ}

-- What a rule asks of the rule set it belongs to: `m_rules` of the transaction.
pub record RulesConfig (S : Type 0) : Type 0 where
  pub configured_rule_engine : RuleEngine
  pub default_actions : ℕ → List (Action S)
  pub exceptions : RulesExceptions S

pub record RuleWithActions (S : Type 0) : Type 0 where
  pub info : RuleInfo
  pub disruptive_action : Option (Action S)
  pub log_data_action : Option (RunTimeString S)
  pub msg_action : Option (RunTimeString S)
  pub rule_severity : Option ℤ
  pub actions_runtime_pos : List (Action S)
  pub actions_set_var : List (Transaction S → S)
  pub actions_tag : List (RunTimeString S)
  pub transformations : List (Transformation S)
  pub contains_capture_action : Bool
  pub contains_multi_match_action : Bool
  pub contains_static_block_action : Bool
  pub is_chained : Bool
  -- m_chainedRuleParent is not null
  pub has_parent : Bool

module _ {S : Type 0} where
  -- A rule with no action, as the initialisers of the constructor make it.
  unfoldable pub bare_rule : Bytes → ℕ → List (Transformation S) → RuleWithActions S
  bare_rule file_name line_number transformations = record {
    info = record {
      file_name = file_name;
      line_number = line_number;
      phase = request_headers_phase;
      rule_id = pos 0;
      rev = [];
      ver = [];
      accuracy = pos 0;
      maturity = pos 0;
    };
    disruptive_action = none;
    log_data_action = none;
    msg_action = none;
    rule_severity = none;
    actions_runtime_pos = [];
    actions_set_var = [];
    actions_tag = [];
    transformations = transformations;
    contains_capture_action = false;
    contains_multi_match_action = false;
    contains_static_block_action = false;
    is_chained = false;
    has_parent = false;
  }

  -- One round of the constructor's loop over the actions. A transformation does not belong in that
  -- list: it is complained about and dropped.
  unfoldable pub add_action : RuleWithActions S → Action S → RuleWithActions S
  add_action r (set_rule_id n) = record r { info = record (r.info) { rule_id = n } }
  add_action r (set_phase n) = record r { info = record (r.info) { phase = n } }
  add_action r (set_rev s) = record r { info = record (r.info) { rev = s } }
  add_action r (set_ver s) = record r { info = record (r.info) { ver = s } }
  add_action r (set_accuracy n) = record r { info = record (r.info) { accuracy = n } }
  add_action r (set_maturity n) = record r { info = record (r.info) { maturity = n } }
  add_action r chain = record r { is_chained = true }
  add_action r (transformation t) = r
  add_action r capture = record r { contains_capture_action = true }
  add_action r multi_match = record r { contains_multi_match_action = true }
  add_action r (severity_action n) = record r { rule_severity = some n }
  add_action r (log_data s) = record r { log_data_action = some s }
  add_action r (msg s) = record r { msg_action = some s }
  add_action r (set_var f) = record r { actions_set_var = r.actions_set_var ++ f ∷ [] }
  add_action r (tag s) = record r { actions_tag = r.actions_tag ++ s ∷ [] }
  add_action r block = record r {
    actions_runtime_pos = r.actions_runtime_pos ++ block ∷ [];
    contains_static_block_action = true;
  }
  add_action r (allow a) = record r { disruptive_action = some (allow a) }
  add_action r deny = record r { disruptive_action = some deny }
  add_action r drop = record r { disruptive_action = some drop }
  add_action r pass = record r { disruptive_action = some pass }
  add_action r (redirect u) = record r { disruptive_action = some (redirect u) }
  add_action r a = record r { actions_runtime_pos = r.actions_runtime_pos ++ a ∷ [] }

  unfoldable pub add_actions : RuleWithActions S → List (Action S) → RuleWithActions S
  unfolding add_action
  add_actions r [] = r
  add_actions r (a ∷ rest) = add_actions (add_action r a) rest

  -- the constructor
  unfoldable pub new_rule :
      List (Action S) → List (Transformation S) → Bytes → ℕ → RuleWithActions S
  unfolding bare_rule add_actions
  new_rule actions transformations file_name line_number =
      add_actions (bare_rule file_name line_number transformations) actions

  -- containsTag
  unfoldable pub contains_tag_in : Bytes → List (RunTimeString S) → Transaction S → Bool
  contains_tag_in name [] t = false
  contains_tag_in name (s ∷ rest) t =
      if str_eq (expand s t) name then true else contains_tag_in name rest t

  unfoldable pub contains_tag : RuleWithActions S → Bytes → Transaction S → Bool
  unfolding contains_tag_in
  contains_tag r name t = contains_tag_in name r.actions_tag t

  -- containsMsg
  unfoldable pub contains_msg : RuleWithActions S → Bytes → Transaction S → Bool
  contains_msg r name t = elim r.msg_action [ none ↦ false | some s ↦ str_eq (expand s t) name ]

-- What an operator answers: whether it matched, the rest of the transaction behind it, the strings
-- that it adds to `m_matched`, and the text that it appends to the reference of the message.
pub record OperatorResult (S : Type 0) : Type 0 where
  pub is_match : Bool
  pub store_after : S
  pub matched_after : List Bytes
  pub reference_added : Bytes

-- An operator as its class makes it. The flag of `evaluate_operator` says whether the rule captures.
pub record Operator (S : Type 0) : Type 0 where
  pub op : Bytes
  pub param : Bytes
  pub match_message : Bytes
  pub negation : Bool
  pub could_contain_macro : Bool
  pub param_string : RunTimeString S
  pub evaluate_operator : Transaction S → Bool → Bytes → OperatorResult S

pub record RuleWithOperator (S : Type 0) : Type 0 where
  pub actions : RuleWithActions S
  pub open actions use *
  pub variables : List (Variable S)
  pub operator : Operator S

-- A rule of a phase. A chain is its starter and the rules that are chained to it, one below the
-- other; `with_operator r []` has no m_chainedRuleChild.
pub data Rule (S : Type 0) : Type 0 where
  marker_rule : Bytes → Rule S
  with_operator : RuleWithOperator S → List (RuleWithOperator S) → Rule S
  unconditional : RuleWithActions S → Rule S
  -- `m_lua.run` on the transaction
  script : RuleWithActions S → (Transaction S → S × Bool) → Rule S

pub record RulesSet (S : Type 0) : Type 0 where
  pub config : RulesConfig S
  pub open config use *
  pub rules_at_phase : ℕ → List (Rule S)
