-- ===== src/Engine/Action.antt =====
-- The actions of a rule: headers/modsecurity/actions/action.h and src/actions. `transform` stands
-- for the class of a transformation (those are modelled under Transformation).
use mod_security.Engine.Intervention.{free, reset}
use mod_security.Engine.Message.{client_log}
use mod_security.Engine.State.{AllowType, RuleEngine, RuleMessage, Transaction, add_marker}
use mod_security.Engine.Variable.{RunTimeString, expand}
use mod_security.Prelude.{
  Bool, List, [], false, if◌then◌else◌, not, some, true, ℕ, ◌&&◌, ◌++◌, ◌||◌, ◌∷◌,
}
use mod_security.Prelude.Bytes.{Bytes, str_eq}
use mod_security.Prelude.Int.{leb_ℤ, ltb_ℤ, pos, ℤ, ◌==ℤ◌}
use mod_security.Prelude.Text.{codes}
use mod_security.Utils.Split.{before}

pub record Transformation (S : Type 0) : Type 0 where
  pub transformation_name : Bytes
  pub is_none : Bool
  -- the new value, and whether `transform` reports a change
  pub transform : Transaction S → Bytes → Bytes × Bool

-- `other` is an action that writes nothing but the rest of the transaction, such as setenv, setuid,
-- initcol, expirevar, exec, ctl:auditEngine or ctl:requestBodyAccess, with its name.
pub data Action (S : Type 0) : Type 0 where
  -- run while the configuration is loaded
  set_rule_id : ℤ → Action S
  set_phase : ℕ → Action S
  set_rev set_ver : Bytes → Action S
  set_accuracy set_maturity : ℤ → Action S
  chain : Action S
  -- run before the operator
  transformation : Transformation S → Action S
  -- run on a match
  allow : AllowType → Action S
  deny drop pass : Action S
  redirect : RunTimeString S → Action S
  block : Action S
  skip : ℤ → Action S
  skip_after : Bytes → Action S
  status_action : ℤ → Action S
  log_action no_log audit_log_action no_audit_log_action : Action S
  severity_action : ℤ → Action S
  msg log_data tag : RunTimeString S → Action S
  capture multi_match : Action S
  set_var : (Transaction S → S) → Action S
  ctl_rule_engine : RuleEngine → Action S
  ctl_rule_remove_by_id : List ℤ → List (ℤ × ℤ) → Action S
  ctl_rule_remove_by_tag : Bytes → Action S
  ctl_rule_remove_target_by_id : ℤ → Bytes → Action S
  ctl_rule_remove_target_by_tag : Bytes → Bytes → Action S
  other : Bytes → (Transaction S → S) → Action S

-- Action::Kind
pub data Kind : Type 0 where
  configuration_kind run_time_before_match_attempt_kind run_time_only_if_match_kind : Kind

module _ {S : Type 0} where
  unfoldable pub kind : Action S → Kind
  kind (set_rule_id n) = configuration_kind
  kind (set_phase n) = configuration_kind
  kind (set_rev s) = configuration_kind
  kind (set_ver s) = configuration_kind
  kind (set_accuracy n) = configuration_kind
  kind (set_maturity n) = configuration_kind
  kind chain = configuration_kind
  kind (transformation t) = run_time_before_match_attempt_kind
  kind _ = run_time_only_if_match_kind

  -- isDisruptive; `block` does not override it
  unfoldable pub is_disruptive_action : Action S → Bool
  is_disruptive_action (allow t) = true
  is_disruptive_action deny = true
  is_disruptive_action drop = true
  is_disruptive_action pass = true
  is_disruptive_action (redirect u) = true
  is_disruptive_action _ = false

  -- `*a->m_name == "block"`
  unfoldable pub is_named_block : Action S → Bool
  is_named_block block = true
  is_named_block (other n f) = str_eq n (codes "block")
  is_named_block _ = false

  -- `*a->m_name == "setvar"`
  unfoldable pub is_named_setvar : Action S → Bool
  is_named_setvar (set_var f) = true
  is_named_setvar (other n f) = str_eq n (codes "setvar")
  is_named_setvar _ = false

  -- What Deny::evaluate and Drop::evaluate do. `strdup` of a text ends it at its first NUL.
  unfoldable pub evaluate_deny : Transaction S × RuleMessage → Transaction S × RuleMessage
  evaluate_deny (t, m) =
      let m' = record m { is_disruptive = true } in
      (
        record t {
          it = record (t.it) {
            status = if t.it.status ==ℤ pos 200 then pos 403 else t.it.status;
            disruptive = true;
            log = some (before 0 (client_log t.who m'));
          };
        },
        m',
      )

  -- Redirect::evaluate
  unfoldable pub evaluate_redirect :
      RunTimeString S → Transaction S × RuleMessage → Transaction S × RuleMessage
  evaluate_redirect url_string (t, m) =
      let m' = record m { is_disruptive = true } in
      let kept = leb_ℤ t.it.status (pos 307) && leb_ℤ (pos 301) t.it.status in
      (
        record t {
          it = record (t.it) {
            status = if t.it.status ==ℤ pos 200 || not kept then pos 302 else t.it.status;
            url = some (before 0 (expand url_string t));
            disruptive = true;
            log = some (before 0 (client_log t.who m'));
          };
        },
        m',
      )

  -- Severity::evaluate
  unfoldable pub evaluate_severity : ℤ → Transaction S × RuleMessage → Transaction S × RuleMessage
  evaluate_severity n (t, m) = (
    record t {
      highest_severity_action =
          if ltb_ℤ n t.highest_severity_action then n else t.highest_severity_action;
    },
    record m { severity = n },
  )

  -- `evaluate` of every action but `block`. Those that are not of RunTimeOnlyIfMatchKind, and
  -- `capture` and `multi_match`, change nothing here.
  unfoldable pub evaluate_simple :
      Action S → Transaction S × RuleMessage → Transaction S × RuleMessage
  unfolding evaluate_deny evaluate_redirect evaluate_severity add_marker reset free
  evaluate_simple (allow a) (t, m) = (record t { allow_type = a }, m)
  evaluate_simple deny s = evaluate_deny s
  evaluate_simple drop s = evaluate_deny s
  evaluate_simple pass (t, m) = (record t { it = reset (free t.it) }, m)
  evaluate_simple (redirect u) s = evaluate_redirect u s
  evaluate_simple (skip n) (t, m) = (record t { skip_next = n }, m)
  evaluate_simple (skip_after name) (t, m) = (add_marker name t, m)
  evaluate_simple (status_action n) (t, m) = (record t { it = record (t.it) { status = n } }, m)
  evaluate_simple log_action (t, m) = (t, record m { save_message = true })
  evaluate_simple no_log (t, m) = (t, record m { save_message = false })
  evaluate_simple audit_log_action (t, m) =
      (t, record m { no_audit_log = false; save_message = true })
  evaluate_simple no_audit_log_action (t, m) =
      (t, record m { no_audit_log = true; save_message = false })
  evaluate_simple (severity_action n) s = evaluate_severity n s
  evaluate_simple (msg s) (t, m) = (t, record m { message = expand s t })
  evaluate_simple (log_data s) (t, m) = (t, record m { text_data = expand s t })
  evaluate_simple (tag s) (t, m) = (t, record m { tags = m.tags ++ expand s t ∷ [] })
  evaluate_simple (set_var f) (t, m) = (record t { store = f t }, m)
  evaluate_simple (ctl_rule_engine e) (t, m) = (record t { sec_rule_engine = e }, m)
  evaluate_simple (ctl_rule_remove_by_id ids ranges) (t, m) = (
    record t {
      rule_remove_by_id = t.rule_remove_by_id ++ ids;
      rule_remove_by_id_range = t.rule_remove_by_id_range ++ ranges;
    },
    m,
  )
  evaluate_simple (ctl_rule_remove_by_tag s) (t, m) =
      (record t { rule_remove_by_tag = t.rule_remove_by_tag ++ s ∷ [] }, m)
  evaluate_simple (ctl_rule_remove_target_by_id n s) (t, m) =
      (record t { rule_remove_target_by_id = t.rule_remove_target_by_id ++ (n, s) ∷ [] }, m)
  evaluate_simple (ctl_rule_remove_target_by_tag n s) (t, m) =
      (record t { rule_remove_target_by_tag = t.rule_remove_target_by_tag ++ (n, s) ∷ [] }, m)
  evaluate_simple (other n f) (t, m) = (record t { store = f t }, m)
  evaluate_simple _ s = s

  -- Block::evaluate, over the default actions of the phase
  unfoldable pub evaluate_block :
      List (Action S) → Transaction S × RuleMessage → Transaction S × RuleMessage
  unfolding is_disruptive_action evaluate_simple
  evaluate_block [] s = s
  evaluate_block (a ∷ rest) s =
      evaluate_block rest (if is_disruptive_action a then evaluate_simple a s else s)

  -- `evaluate` of any action; the list holds the default actions of the phase of the rule
  unfoldable pub evaluate_action :
      List (Action S) → Action S → Transaction S × RuleMessage → Transaction S × RuleMessage
  unfolding evaluate_block evaluate_simple
  evaluate_action defaults block s = evaluate_block defaults s
  evaluate_action defaults a s = evaluate_simple a s
