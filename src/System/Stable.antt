-- ===== src/System/Stable.antt =====
-- What every request keeps of the audit log, the revoked tokens, the reset tokens and the deliveries,
-- if it is kept by the statements that write these tables.
use growth_track.Effects.{Relation, Allows, AllowsEnds, KeepsKey}
use growth_track.Models.{AuditLogEntry, PasswordResetToken, NotificationDelivery}
use growth_track.Session.{Database, World}
use growth_track.Persistence.Deliveries.{insert_rows}
use growth_track.Persistence.Tokens.{has_jti}
use growth_track.System.{Setup, Request, serve_all}
use growth_track.System.Rules.{serve_all-obeys}
use growth_track.Prelude.{
  ℕ, ◌≡◌, Bool, subst, sym, some, List, ◌∷◌, ◌==◌, any, set_where, if◌then◌else◌,
}

pub record Ledger : Type 0 where
  pub audit_log : List AuditLogEntry
  pub revoked : List (ℕ × ℕ)
  pub tokens : List PasswordResetToken
  pub deliveries : List NotificationDelivery

abbrev pub ledger : Database → Ledger
ledger d = record {
  audit_log = d.audit_log_entries;
  revoked = d.revoked_tokens;
  tokens = d.password_reset_tokens;
  deliveries = d.notification_deliveries;
}

pub record IsStable (Q : Ledger → Type 0) : Type 0 where
  pub audit :
      (entry : AuditLogEntry) (l : Ledger) → Q l → Q (record l { audit_log = entry ∷ l.audit_log })
  pub revoke :
      (jti at : ℕ) (l : Ledger)
      → Q l
      → Q (record l {
        revoked = if any (has_jti jti) l.revoked then l.revoked else (jti, at) ∷ l.revoked;
      })
  pub add_token :
      (token : PasswordResetToken) (l : Ledger) → Q l → Q (record l { tokens = token ∷ l.tokens })
  pub mark_used :
      (id at : ℕ) (l : Ledger)
      → Q l
      → Q (record l {
        tokens = set_where (λ t. t.id == id) (λ t. record t { used_at = some at }) l.tokens;
      })
  pub insert :
      (rows table : List NotificationDelivery) (l : Ledger)
      → insert_rows rows l.deliveries ≡ some table
      → Q l
      → Q (record l { deliveries = table })
  pub touch :
      (p : NotificationDelivery → Bool) (f : NotificationDelivery → NotificationDelivery)
      → KeepsKey f
      → (l : Ledger) → Q l
      → Q (record l { deliveries = set_where p f l.deliveries })

module _ (Q : Ledger → Type 0) (stable : IsStable Q) where
  -- What holds of the open transaction and of the last commit holds of both afterwards.
  abbrev Both : Relation
  Both w v = Q (ledger w.db) × Q (ledger w.committed) → Q (ledger v.db) × Q (ledger v.committed)

  Allows-Both : Allows Both
  Allows-Both = record {
    stays = λ w h. h;
    follows = λ u v w f g h. g (f h);
    calls = λ n w h. h;
    users = λ xs w h. h;
    teams = λ xs w h. h;
    recipient_lists = λ xs w h. h;
    recipient_list_members = λ xs w h. h;
    opt_in_consents = λ xs w h. h;
    message_templates = λ xs w h. h;
    notifications = λ xs ys w h. h;
    report_schedules = λ xs w h. h;
    doctors = λ xs w h. h;
    brand_performance = λ xs w h. h;
    sales_data = λ xs w h. h;
    import_runs = λ xs w h. h;
    staging_sales_data = λ xs w h. h;
    staging_brand_performance = λ xs w h. h;
    staging_doctors = λ xs w h. h;
    audit = λ entry w h. (stable.audit entry _ h.0, h.1);
    revoke = λ jti at w h. (stable.revoke jti at _ h.0, h.1);
    add_token = λ token w h. (stable.add_token token _ h.0, h.1);
    mark_used = λ id at w h. (stable.mark_used id at _ h.0, h.1);
    insert = λ rows table w e h. (stable.insert rows table (ledger w.db) e h.0, h.1);
    touch = λ p f k w h. (stable.touch p f k (ledger w.db) h.0, h.1);
  }

  AllowsEnds-Both : AllowsEnds Both
  AllowsEnds-Both = record {
    commits = λ w h. (h.0, h.0);
    rolls_back = λ w h. (h.1, h.1);
    sends =
        λ w v e c h. (subst (λ d. Q (ledger d)) (sym e) h.0, subst (λ d. Q (ledger d)) (sym c) h.1);
  }

  pub serve_all-stable :
      (s : Setup) (requests : List Request) (w : World)
      → Q (ledger w.db)
      → Q (ledger w.committed)
      → Q (ledger (serve_all s requests w).db) × Q (ledger (serve_all s requests w).committed)
  serve_all-stable s requests w h k =
      serve_all-obeys Both Allows-Both AllowsEnds-Both s requests w (h, k)
