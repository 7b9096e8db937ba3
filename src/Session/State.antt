-- ===== src/Session/State.antt =====
-- The state, its external inputs and the monad.
use growth_track.Prelude.{ℕ, suc, String, Bool, true, false, Option, none, some, List, [], ◌∷◌}
use growth_track.Models.{
  RecipientListKind, RecipientListStatus, User, PasswordResetToken, Team, OptInConsent,
  ContentVariables, MessageTemplate, Notification, NotificationTarget, NotificationDelivery,
  AuditLogEntry, BrandPerformance, Doctor, ReportSchedule, SalesData, ImportRun, StagingRow,
}
use growth_track.Session.Exceptions.{Exc}

-- A row of `recipient_lists`, without the members, which have a table of their own.
pub record RecipientListRow : Type 0 where
  pub id : ℕ
  pub name : String
  pub kind : RecipientListKind
  pub status : RecipientListStatus
  pub version : ℕ

pub record Database : Type 0 where
  pub users : List User
  pub teams : List Team
  pub recipient_lists : List RecipientListRow
  pub recipient_list_members : List (ℕ × ℕ)
  pub opt_in_consents : List OptInConsent
  pub message_templates : List MessageTemplate
  pub notifications : List Notification
  pub notification_targets : List NotificationTarget
  pub notification_deliveries : List NotificationDelivery
  pub audit_log_entries : List AuditLogEntry
  pub revoked_tokens : List (ℕ × ℕ)
  pub password_reset_tokens : List PasswordResetToken
  pub report_schedules : List ReportSchedule
  pub doctors : List Doctor
  pub brand_performance : List BrandPerformance
  pub sales_data : List SalesData
  pub import_runs : List ImportRun
  pub staging_sales_data : List StagingRow
  pub staging_brand_performance : List StagingRow
  pub staging_doctors : List StagingRow

-- What is handed to `WhatsAppSender.send_template_message`.
pub record Message : Type 0 where
  pub to_number : Option String
  pub content_sid : String
  pub content_variables : ContentVariables

-- The sender's answer: the provider's SID, or the text of the exception.
pub data SendReply : Type 0 where
  accepted : String → SendReply
  rejected : String → SendReply

pub record World : Type 0 where
  pub db : Database
  pub committed : Database
  pub calls : ℕ
  pub outbox : List Message

-- Code outside the repository. Each answer may depend on how many calls were made before it.
pub record Env : Type 0 where
  -- `uuid.uuid4()`
  pub uuid4 : ℕ → ℕ
  -- `datetime.now(UTC)`
  pub now : ℕ → ℕ
  -- the Twilio client behind `TwilioWhatsAppSender`
  pub send : ℕ → Message → SendReply
  -- `PasswordHasher.hash` (salted) and `.verify`, also of a missing hash
  pub hash : ℕ → String → String
  pub verify : String → Option String → Bool
  -- `secrets.token_urlsafe(32)` and `hashlib.sha256(...).hexdigest()`
  pub token_urlsafe : ℕ → String
  pub sha256 : String → String
  -- `str(exc)` of the KeyError for a missing UUID key
  pub key_error_text : ℕ → String
  -- `str.lower`
  pub lower : String → String
  -- `pg_try_advisory_xact_lock`: whether another transaction leaves the lock free
  pub try_lock : ℕ → ℕ → Bool

pub data Outcome (A : Type 0) : Type 0 where
  ok : A → Outcome A
  raised : Exc → Outcome A

abbrev pub Session : Type 0 → Type 0
Session A = World → Outcome A × World

module _ {A : Type 0} where
  abbrev pub return : A → Session A
  return a w = (ok a, w)

  abbrev pub raise : Exc → Session A
  raise e w = (raised e, w)

  -- A SELECT.
  abbrev pub query : (Database → A) → Session A
  query f w = (ok (f w.db), w)

  -- A call to the outside, numbered.
  abbrev pub external : (ℕ → A) → Session A
  external f w = (ok (f w.calls), record w { calls = suc w.calls })

-- `result.scalar_one_or_none()`.
abbrev pub scalar_one_or_none : {A : Type 0} → List A → Session (Option A)
scalar_one_or_none [] = return none
scalar_one_or_none (a ∷ []) = return (some a)
scalar_one_or_none (a ∷ b ∷ rest) = raise Exc.multiple_results_found

-- An INSERT, UPDATE or DELETE.
abbrev pub write : (Database → Database) → Session (Unit {0})
write f w = (ok tt, record w { db = f w.db })

module _ {A B : Type 0} where
  abbrev pub resume : Outcome A × World → (A → Session B) → Outcome B × World
  resume (ok a, w) k = k a w
  resume (raised e, w) k = (raised e, w)

infixl 5 ◌>>=◌ ◌>>◌
abbrev pub ◌>>=◌ : {A B : Type 0} → Session A → (A → Session B) → Session B
◌>>=◌ m k w = resume (m w) k

abbrev pub ◌>>◌ : {A B : Type 0} → Session A → Session B → Session B
m >> k = m >>= λ _. k

-- `await whatsapp.send_template_message(...)`: the message leaves, whatever the answer is.
unfoldable pub send_template_message : Env → Message → Session SendReply
send_template_message env m w =
    (ok (env.send w.calls m), record w { calls = suc w.calls; outbox = m ∷ w.outbox })

-- `if c: raise e`.
abbrev pub raise_if : Bool → Exc → Session (Unit {0})
raise_if true e = raise e
raise_if false e = return tt

-- `if c: m`.
abbrev pub when : Bool → Session (Unit {0}) → Session (Unit {0})
when true m = m
when false m = return tt

-- `await session.commit()` and `await session.rollback()`.
abbrev pub commit : Session (Unit {0})
commit w = (ok tt, record w { committed = w.db })

abbrev pub rollback : Session (Unit {0})
rollback w = (ok tt, record w { db = w.committed })
