-- ===== src/Request/AuditLog.antt =====
-- The parts and the relevance of the audit log: src/audit_log/audit_log.cc.
pub mod Parts
use mod_security.Engine.State.{RuleMessage, Transaction}
use mod_security.Prelude.{
  Bool, List, Option, [], false, if◌then◌else◌, none, not, some, true, ℕ, ◌&&◌, ◌++◌, ◌||◌, ◌∷◌,
}
use mod_security.Prelude.Bytes.{Bytes}
use mod_security.Prelude.Int.{ℤ}
use mod_security.Request.State.{
  AuditLogConfig, AuditLogPart, AuditLogParts, AuditLogStatus, Request, not_set_log_status,
  off_audit_log_status, on_audit_log_status, part_a, part_b, part_c, part_d, part_e, part_f, part_g,
  part_h, part_i, part_j, part_k, part_z, relevant_only_audit_log_status,
}
use mod_security.Utils.Ctype.{tolower, toupper}
use mod_security.Utils.Number.{to_string_ℤ}
use mod_security.Utils.Split.{contains_byte}

unfoldable pub part_letter : AuditLogPart → ℕ
part_letter part_a = b'A'
part_letter part_b = b'B'
part_letter part_c = b'C'
part_letter part_d = b'D'
part_letter part_e = b'E'
part_letter part_f = b'F'
part_letter part_g = b'G'
part_letter part_h = b'H'
part_letter part_i = b'I'
part_letter part_j = b'J'
part_letter part_k = b'K'
part_letter part_z = b'Z'

-- The test of PARTS_CONSTAINS and PARTS_CONSTAINS_REM: the letter in either case.
unfoldable pub names_part : Bytes → AuditLogPart → Bool
unfolding part_letter contains_byte toupper tolower
names_part new_parts p =
    contains_byte (toupper (part_letter p)) new_parts
    || contains_byte (tolower (part_letter p)) new_parts

unfoldable pub add_parts : AuditLogParts → Bytes → AuditLogParts
unfolding names_part
add_parts parts new_parts p = parts p || names_part new_parts p

unfoldable pub remove_parts : AuditLogParts → Bytes → AuditLogParts
unfolding names_part
remove_parts parts new_parts p = parts p && not (names_part new_parts p)

-- m_defaultParts
unfoldable pub default_parts : AuditLogParts
default_parts part_a = true
default_parts part_b = true
default_parts part_c = true
default_parts part_f = true
default_parts part_h = true
default_parts part_z = true
default_parts _ = false

-- The loop over m_auditLogModifier, of Transaction::processLogging.
unfoldable pub modify_parts : List (Bool × Bytes) → AuditLogParts → AuditLogParts
unfolding add_parts remove_parts
modify_parts [] parts = parts
modify_parts ((added, letters) ∷ rest) parts =
    modify_parts rest (if added then add_parts parts letters else remove_parts parts letters)

-- isRelevant
unfoldable pub is_relevant : Option (Bytes → Bool) → ℤ → Bool
unfolding to_string_ℤ
is_relevant none status = false
is_relevant (some found) status = found (to_string_ℤ status)

-- whether some message of the rules is for the audit log
unfoldable pub any_audited : List RuleMessage → Bool
any_audited [] = false
any_audited (m ∷ rest) = if not m.no_audit_log then true else any_audited rest

module _ {C : Type 0} where
  -- getParts
  unfoldable pub get_parts : AuditLogConfig C → AuditLogParts
  unfolding default_parts
  get_parts a = elim a.audit_parts [ none ↦ default_parts | some parts ↦ parts ]

  -- ctl:auditEngine, where it was run, else SecAuditEngine
  unfoldable pub transaction_audit_status :
      AuditLogConfig C → Transaction (Request C) → AuditLogStatus
  transaction_audit_status a t = elim t.store.ctl_audit_engine [
    | not_set_log_status ↦ a.audit_status
    | on_audit_log_status ↦ on_audit_log_status
    | off_audit_log_status ↦ off_audit_log_status
    | relevant_only_audit_log_status ↦ relevant_only_audit_log_status
  ]

  -- Whether a transaction goes to the writer; `none` is the answer of an engine that is off.
  unfoldable pub wants_audit : AuditLogConfig C → Transaction (Request C) → Option Bool
  unfolding transaction_audit_status any_audited is_relevant
  wants_audit a t =
      let relevant =
        is_relevant a.relevant t.store.response.http_code_returned
        || any_audited t.rules_messages in
      elim (transaction_audit_status a t) [
        | not_set_log_status ↦ none
        | off_audit_log_status ↦ none
        | on_audit_log_status ↦ some true
        | relevant_only_audit_log_status ↦ some relevant
      ]

  -- The writer is called with the parts.
  unfoldable pub write_audit :
      AuditLogConfig C → AuditLogParts → Transaction (Request C) → Transaction (Request C) × Bool
  write_audit a parts t = elim a.writer [
    | none ↦ (t, true)
    | some write ↦ (
      record t {
        store = record (t.store) { audit_log_written = t.store.audit_log_written ++ parts ∷ [] };
      },
      write t parts,
    )
  ]

  -- saveIfRelevant, with its answer
  unfoldable pub save_if_relevant :
      AuditLogConfig C → AuditLogParts → Transaction (Request C) → Transaction (Request C) × Bool
  unfolding wants_audit write_audit
  save_if_relevant a parts t = elim (wants_audit a t) [
    | none ↦ (t, true)
    | some wanted ↦ if wanted then write_audit a parts t else (t, false)
  ]
