-- ===== src/Effects.antt =====
-- What a session may do to the world: a relation that allows the statements of a program, between
-- the world before and the world after.
pub mod Directory
pub mod Accounts
pub mod Messaging
pub mod Sending
pub mod Import
pub mod Jobs
pub mod Replies
pub mod Routes
pub mod AccountRoutes
use growth_track.Models.{
  User, PasswordResetToken, Team, OptInConsent, MessageTemplate, Notification, NotificationTarget,
  NotificationDelivery, AuditLogEntry, BrandPerformance, Doctor, ReportSchedule, SalesData,
  ImportRun, StagingRow,
}
use growth_track.Session.{
  Exc, Session, return, raise, query, external, write, resume, ◌>>=◌, ◌>>◌, raise_if, when, commit,
  rollback, scalar_one_or_none, Database, RecipientListRow, World, Outcome, ok, raised,
}
use growth_track.SessionLaws.{IsReading}
use growth_track.Persistence.Deliveries.{insert_rows}
use growth_track.Prelude.{
  ℕ, suc, subst, sym, ◌≡◌, if◌then◌else◌, any, Bool, true, false, Option, none, some, List, [], ◌∷◌,
  set_where, ◌==◌,
}
use growth_track.Persistence.Tokens.{has_jti}

-- An update of a delivery that keeps what the unique indexes and the foreign keys read.
pub record KeepsKey (f : NotificationDelivery → NotificationDelivery) : Type 0 where
  pub keeps_id : (r : NotificationDelivery) → (f r).id ≡ r.id
  pub keeps_notification : (r : NotificationDelivery) → (f r).notification_id ≡ r.notification_id
  pub keeps_type : (r : NotificationDelivery) → (f r).notification_type ≡ r.notification_type
  pub keeps_recipient : (r : NotificationDelivery) → (f r).recipient_user_id ≡ r.recipient_user_id
  pub keeps_day : (r : NotificationDelivery) → (f r).operational_day ≡ r.operational_day

abbrev pub Relation : Type 1
Relation = World → World → Type 0

-- The statements of a transaction. Most tables may change in any way; entries of the audit log and
-- revoked tokens are only added, a reset token is only added or marked as used, and deliveries are
-- inserted under their unique indexes or keep their keys.
pub record Allows (R : Relation) : Type 0 where
  pub stays : (w : World) → R w w
  pub follows : (u v w : World) → R u v → R v w → R u w
  pub calls : (n : ℕ) (w : World) → R w (record w { calls = n })
  pub users : (xs : List User) (w : World) → R w (record w { db = record w.db { users = xs } })
  pub teams : (xs : List Team) (w : World) → R w (record w { db = record w.db { teams = xs } })
  pub recipient_lists :
      (xs : List RecipientListRow) (w : World)
      → R w (record w { db = record w.db { recipient_lists = xs } })
  pub recipient_list_members :
      (xs : List (ℕ × ℕ)) (w : World)
      → R w (record w { db = record w.db { recipient_list_members = xs } })
  pub opt_in_consents :
      (xs : List OptInConsent) (w : World)
      → R w (record w { db = record w.db { opt_in_consents = xs } })
  pub message_templates :
      (xs : List MessageTemplate) (w : World)
      → R w (record w { db = record w.db { message_templates = xs } })
  pub notifications :
      (xs : List Notification) (ys : List NotificationTarget) (w : World)
      → R w (record w { db = record w.db { notifications = xs; notification_targets = ys } })
  pub report_schedules :
      (xs : List ReportSchedule) (w : World)
      → R w (record w { db = record w.db { report_schedules = xs } })
  pub doctors :
      (xs : List Doctor) (w : World) → R w (record w { db = record w.db { doctors = xs } })
  pub brand_performance :
      (xs : List BrandPerformance) (w : World)
      → R w (record w { db = record w.db { brand_performance = xs } })
  pub sales_data :
      (xs : List SalesData) (w : World) → R w (record w { db = record w.db { sales_data = xs } })
  pub import_runs :
      (xs : List ImportRun) (w : World) → R w (record w { db = record w.db { import_runs = xs } })
  pub staging_sales_data :
      (xs : List StagingRow) (w : World)
      → R w (record w { db = record w.db { staging_sales_data = xs } })
  pub staging_brand_performance :
      (xs : List StagingRow) (w : World)
      → R w (record w { db = record w.db { staging_brand_performance = xs } })
  pub staging_doctors :
      (xs : List StagingRow) (w : World)
      → R w (record w { db = record w.db { staging_doctors = xs } })
  pub audit :
      (entry : AuditLogEntry) (w : World)
      → R w (record w { db = record w.db { audit_log_entries = entry ∷ w.db.audit_log_entries } })
  pub revoke :
      (jti at : ℕ) (w : World)
      → R w (record w {
        db = record w.db {
          revoked_tokens =
              if any (has_jti jti) w.db.revoked_tokens
              then w.db.revoked_tokens
              else (jti, at) ∷ w.db.revoked_tokens;
        };
      })
  pub add_token :
      (token : PasswordResetToken) (w : World)
      → R w (record w {
        db = record w.db { password_reset_tokens = token ∷ w.db.password_reset_tokens };
      })
  pub mark_used :
      (id at : ℕ) (w : World)
      → R w (record w {
        db = record w.db {
          password_reset_tokens =
              set_where
                (λ t. t.id == id)
                (λ t. record t { used_at = some at })
                w.db.password_reset_tokens;
        };
      })
  pub insert :
      (rows table : List NotificationDelivery) (w : World)
      → insert_rows rows w.db.notification_deliveries ≡ some table
      → R w (record w { db = record w.db { notification_deliveries = table } })
  pub touch :
      (p : NotificationDelivery → Bool) (f : NotificationDelivery → NotificationDelivery)
      → KeepsKey f
      → (w : World)
      → R w (record w {
        db = record w.db { notification_deliveries = set_where p f w.db.notification_deliveries };
      })

-- The relation allows the ends of a transaction and messages too.
pub record AllowsEnds (R : Relation) : Type 0 where
  pub commits : (w : World) → R w (record w { committed = w.db })
  pub rolls_back : (w : World) → R w (record w { db = w.committed })
  pub sends : (w v : World) → v.db ≡ w.db → v.committed ≡ w.committed → R w v

pub record Obeys (R : Relation) {A : Type 0} (m : Session A) : Type 0 where
  pub obeys : (w : World) → R w (m w).1

module _ (R : Relation) (allowed : Allows R) where
  pub return-Obeys : {A : Type 0} (a : A) → Obeys R (return a)
  return-Obeys a = record { obeys = allowed.stays }

  pub raise-Obeys : {A : Type 0} (e : Exc) → Obeys R (raise {A = A} e)
  raise-Obeys e = record { obeys = allowed.stays }

  pub query-Obeys : {A : Type 0} (f : Database → A) → Obeys R (query f)
  query-Obeys f = record { obeys = allowed.stays }

  pub external-Obeys : {A : Type 0} (f : ℕ → A) → Obeys R (external f)
  external-Obeys f = record { obeys = λ w. allowed.calls (suc w.calls) w }

  pub raise_if-Obeys : (b : Bool) (e : Exc) → Obeys R (raise_if b e)
  raise_if-Obeys true e = raise-Obeys e
  raise_if-Obeys false e = return-Obeys tt

  pub when-Obeys : (b : Bool) (m : Session (Unit {0})) → Obeys R m → Obeys R (when b m)
  when-Obeys true m h = h
  when-Obeys false m h = return-Obeys tt

  pub if-Obeys :
      {A : Type 0} (b : Bool) (m n : Session A)
      → Obeys R m
      → Obeys R n
      → Obeys R (if b then m else n)
  if-Obeys true m n h q = h
  if-Obeys false m n h q = q

  pub scalar-Obeys : {A : Type 0} (xs : List A) → Obeys R (scalar_one_or_none xs)
  scalar-Obeys [] = return-Obeys none
  scalar-Obeys (x ∷ []) = return-Obeys (some x)
  scalar-Obeys (x ∷ y ∷ xs) = raise-Obeys _

  pub reading-Obeys : {A : Type 0} (m : Session A) → IsReading m → Obeys R m
  reading-Obeys m h = record {
    obeys = λ w. subst (R w) (sym (h.only_calls w)) (allowed.calls (m w).1.calls w);
  }

  pub write-Obeys :
      (f : Database → Database) → ((w : World) → R w (record w { db = f w.db })) → Obeys R (write f)
  write-Obeys f h = record { obeys = h }

  module _ {A B : Type 0} where
    resume-obeys :
        (w : World) (x : Outcome A × World) (k : A → Session B)
        → R w x.1
        → ((a : A) → Obeys R (k a))
        → R w (resume x k).1
    resume-obeys w (ok a, v) k h q = allowed.follows w v (k a v).1 h ((q a).obeys v)
    resume-obeys w (raised e, v) k h q = h

    pub bind-Obeys :
        (m : Session A) (k : A → Session B)
        → Obeys R m
        → ((a : A) → Obeys R (k a))
        → Obeys R (m >>= k)
    bind-Obeys m k h q = record { obeys = λ w. resume-obeys w (m w) k (h.obeys w) q }

    pub then-Obeys : (m : Session A) (n : Session B) → Obeys R m → Obeys R n → Obeys R (m >> n)
    then-Obeys m n h q = bind-Obeys m (λ a. n) h (λ a. q)

module _ (R : Relation) (ends : AllowsEnds R) where
  pub commit-Obeys : Obeys R commit
  commit-Obeys = record { obeys = ends.commits }

  pub rollback-Obeys : Obeys R rollback
  rollback-Obeys = record { obeys = ends.rolls_back }

-- The rules that follow the structure of a do block.
pub ruleset effects = (
  bind-Obeys, then-Obeys, return-Obeys, raise-Obeys, query-Obeys, external-Obeys, raise_if-Obeys,
  when-Obeys, if-Obeys, scalar-Obeys, write-Obeys,
)

pub ruleset ending = (effects, commit-Obeys, rollback-Obeys)
