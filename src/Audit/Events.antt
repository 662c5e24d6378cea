-- ===== src/Audit/Events.antt =====
-- src/audit/events.ts: the append-only log of decisions. Whether the file can be written is a
-- field of the state; a failed write is caught and reported as `false`.
use dg_cli.Common.{String, Bool, true, false, List, [], ◌∷◌, ◌++◌, if◌then◌else◌}

pub data AuditEventType : Type 0 where
  install_blocked install_force_override decision_accepted decision_revoked : AuditEventType

pub record AuditEvent : Type 0 where
  pub event_type : AuditEventType
  pub package_name : String
  pub reason : String
  pub policy_mode : String
  pub created_at : String

pub record AuditLog : Type 0 where
  pub lines : List AuditEvent
  pub writable : Bool

unfoldable pub record_audit_event : AuditEvent → AuditLog → Bool × AuditLog
record_audit_event event log =
    if log.writable then (true, record log { lines = log.lines ++ event ∷ [] }) else (false, log)
