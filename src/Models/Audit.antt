-- ===== src/Models/Audit.antt =====
-- Audit-log entries (domain/models.py). The values of `details` are texts, numbers, ids (which
-- the source writes by `str`) and lists of texts.
use growth_track.Prelude.{ℕ, String, Option, List}

pub data Detail : Type 0 where
  text : String → Detail
  number : ℕ → Detail
  uuid : ℕ → Detail
  texts : List String → Detail

abbrev pub Details : Type 0
Details = List (String × Detail)

pub record AuditLogEntry : Type 0 where
  pub id : ℕ
  pub actor_user_id : Option ℕ
  pub action : String
  pub entity_type : Option String
  pub entity_id : Option ℕ
  pub details : Option Details
  pub created_at : ℕ
