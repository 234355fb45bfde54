-- ===== src/Request/AuditLog/Parts.antt =====
-- Which parts of the audit log are written behind the ctl:auditLogParts of a transaction.
use mod_security.Prelude.{Bool, false, if◌then◌else◌, ◌≡◌}
use mod_security.Prelude.Bytes.{Bytes}
use mod_security.Request.AuditLog.{add_parts, names_part, remove_parts}
use mod_security.Request.State.{AuditLogPart, AuditLogParts}

-- A modifier that does not name the part.
abbrev pub LeavesPart : AuditLogPart → Bool × Bytes → Type 0
LeavesPart p (added, letters) = names_part letters p ≡ false

module _ (p : AuditLogPart) where
  modify_part : Bool → Bytes → AuditLogParts → AuditLogParts
  modify_part added letters parts =
      if added then add_parts parts letters else remove_parts parts letters
