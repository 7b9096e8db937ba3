-- ===== src/System/AuditLog.antt =====
-- The audit log over the life of the program (adapters/persistence/audit_log.py).
use growth_track.Models.{AuditLogEntry}
use growth_track.Session.{World}
use growth_track.System.{Setup, Request, serve_all}
use growth_track.System.Stable.{Ledger, IsStable, serve_all-stable}
use growth_track.Prelude.{◌≡◌, refl, ap, List, [], ◌∷◌, ◌++◌}

module _ (log : List AuditLogEntry) where
  abbrev Extends : Ledger → Type 0
  Extends l = (added : List AuditLogEntry) × (l.audit_log ≡ added ++ log)

  Extends-IsStable : IsStable Extends
  Extends-IsStable = record {
    audit = λ entry l (added, e). (entry ∷ added, ap (λ xs. entry ∷ xs) e);
    revoke = λ jti at l h. h;
    add_token = λ token l h. h;
    mark_used = λ id at l h. h;
    insert = λ rows table l e h. h;
    touch = λ p f k l h. h;
  }

-- The audit log is append-only: whatever requests and jobs follow, the committed log is the one that
-- was committed before, with entries added to it.
pub serve_all-appends :
    (s : Setup) (requests : List Request) (w : World)
    → w.db.audit_log_entries ≡ w.committed.audit_log_entries
    → (added : List AuditLogEntry) × ((serve_all s requests w).committed.audit_log_entries
        ≡ added ++ w.committed.audit_log_entries)
serve_all-appends s requests w h =
    (serve_all-stable (Extends w.committed.audit_log_entries)
      (Extends-IsStable w.committed.audit_log_entries) s requests w ([], h) ([], refl)).1
