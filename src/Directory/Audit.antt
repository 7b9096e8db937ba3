-- ===== src/Directory/Audit.antt =====
-- The audit entry that each directory operation writes beside its change.
use growth_track.Prelude.{ℕ, String, Option}
use growth_track.Models.{Details}
use growth_track.Session.{Session, external, ◌>>=◌, Env}
use growth_track.Persistence.AuditLog

module _ (env : Env) where
  -- `AuditLogEntry(id=uuid.uuid4(), ..., created_at=created_at)`
  unfoldable pub audit_at :
      ℕ → Option ℕ → String → Option String → Option ℕ → Option Details → Session (Unit {0})
  unfolding AuditLog.add
  audit_at created_at actor_user_id action entity_type entity_id details = do
    id ← external env.uuid4
    AuditLog.add (record {
      id = id;
      actor_user_id = actor_user_id;
      action = action;
      entity_type = entity_type;
      entity_id = entity_id;
      details = details;
      created_at = created_at;
    })

  -- The same with `created_at=datetime.now(UTC)`.
  unfoldable pub audit_now :
      Option ℕ → String → Option String → Option ℕ → Option Details → Session (Unit {0})
  unfolding AuditLog.add
  audit_now actor_user_id action entity_type entity_id details = do
    id ← external env.uuid4
    now ← external env.now
    AuditLog.add (record {
      id = id;
      actor_user_id = actor_user_id;
      action = action;
      entity_type = entity_type;
      entity_id = entity_id;
      details = details;
      created_at = now;
    })
