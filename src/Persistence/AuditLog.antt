-- ===== src/Persistence/AuditLog.antt =====
-- SqlAlchemyAuditLogRepository (adapters/persistence/audit_log.py).
use growth_track.Prelude.{◌∷◌}
use growth_track.Models.{AuditLogEntry}
use growth_track.Session.{Session, write}

unfoldable pub add : AuditLogEntry → Session (Unit {0})
add entry = write (λ d. record d { audit_log_entries = entry ∷ d.audit_log_entries })
