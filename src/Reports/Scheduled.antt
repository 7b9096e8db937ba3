-- ===== src/Reports/Scheduled.antt =====
-- ScheduledReportService.run_daily_report (domain/scheduled_notifications.py).
pub mod Laws
pub mod Batch
pub mod Reading
use growth_track.Models.{
  is_active_user, User, ContentVariables, NotificationType, DeliveryStatus, MessageTemplate,
  NotificationDelivery,
}
use growth_track.Session.{Session, return, external, ◌>>=◌, ◌>>◌, Env, Outcome, ok, raised}
use growth_track.Reports.{Context}
use growth_track.Reports.Content.{
  CompanyWideReportContent, build_company_wide_content, resolve_territories, build_doctor_section,
}
use growth_track.Persistence.Users
use growth_track.Persistence.Templates
use growth_track.Persistence.Notifications
use growth_track.Persistence.Deliveries
use growth_track.Notifications.Resolution.{ResolvedRecipients, resolve}
use growth_track.Notifications.Dispatch.{
  VariablesByRecipient, DeliveryOutcome, variables_of, dispatch_deliveries,
}
use growth_track.Notifications.TemplateDirectory.{has_text}
use growth_track.Notifications.Compose.{VariableValues, positional, require_variables}
use growth_track.Prelude.{
  ℕ, String, Bool, true, false, not, Option, none, some, List, [], ◌∷◌, ◌++◌, map, str_eq, ◌==◌,
  if◌then◌else◌, rows_where, any, dict_get,
}

pub data ScheduledReportOutcome : Type 0 where
  succeeded skipped : ScheduledReportOutcome

pub record ScheduledReportResult : Type 0 where
  pub outcome : ScheduledReportOutcome
  pub notification_id : Option ℕ
  pub recipient_count : ℕ

abbrev pub skipped_result : ScheduledReportResult
skipped_result = record {
  outcome = ScheduledReportOutcome.skipped;
  notification_id = none;
  recipient_count = 0;
}

-- _KNOWN_CONTENT_VARIABLE_SLOTS.
abbrev pub known_content_variable_slots : List String
known_content_variable_slots =
    "ytd_sales" ∷ "mtd_sales" ∷ "achievement_pct" ∷ "growth_pct" ∷ "team_performance" ∷ "top_brand"
    ∷ "focus_brand" ∷ "top_doctors" ∷ []

abbrev pub has_unknown_slot : List String → Bool
has_unknown_slot = any (λ slot. not (has_text slot known_content_variable_slots))

-- `values_by_slot_name`.
abbrev pub values_by_slot_name : CompanyWideReportContent → String → VariableValues
values_by_slot_name c top_doctors =
    ("ytd_sales", c.ytd_sales)
    ∷ ("mtd_sales", c.mtd_sales)
    ∷ ("achievement_pct", c.achievement_pct)
    ∷ ("growth_pct", c.growth_pct)
    ∷ ("team_performance", c.team_performance)
    ∷ ("top_brand", c.top_brand)
    ∷ ("focus_brand", c.focus_brand)
    ∷ ("top_doctors", top_doctors)
    ∷ []

-- `doctor_section_by_territory`.
abbrev pub Sections : Type 0
Sections = List (String × String)

abbrev pub section_of : String → Sections → Option String
section_of territory [] = none
section_of territory ((t, section) ∷ sections) =
    let rest = section_of territory sections in if str_eq t territory then some section else rest

-- `content_variables_by_recipient.get(recipient_user_id, {})`.
abbrev pub or_empty : Option ContentVariables → ContentVariables
or_empty none = []
or_empty (some variables) = variables

-- A run that is skipped if a guard holds.
abbrev pub cond_skip : Bool → Session ScheduledReportResult → Session ScheduledReportResult
cond_skip true m = return skipped_result
cond_skip false m = m

module _ (context : Context) (env : Env) where
  abbrev pub cached_or_built : String → Sections → Option String → Session (String × Sections)
  cached_or_built territory sections (some section) = return (section, sections)
  cached_or_built territory sections none = do
    section ← build_doctor_section context env territory
    return (section, (territory, section) ∷ sections)

  module _ (company_wide : CompanyWideReportContent) (variable_slots : List String) where
    -- The variables of one recipient, unless it has vanished.
    unfoldable pub recipient_variables :
        ℕ → Option (ℕ × String) → Sections → Session (VariablesByRecipient × Sections)
    unfolding build_doctor_section positional
    recipient_variables recipient_user_id none sections = return ([], sections)
    recipient_variables recipient_user_id (some (user_id, territory)) sections = do
      (section, sections') ← cached_or_built territory sections (section_of territory sections)
      variables ←
          require_variables (positional 1 variable_slots (values_by_slot_name company_wide section))
      return ((recipient_user_id, variables) ∷ [], sections')

    unfoldable pub all_variables :
        List (ℕ × String) → Sections → List ℕ → Session VariablesByRecipient
    unfolding recipient_variables
    all_variables territories sections [] = return []
    all_variables territories sections (recipient_user_id ∷ ids) = do
      (variables, sections') ←
          recipient_variables recipient_user_id
            (dict_get (λ (t : ℕ × String). t.0) recipient_user_id territories) sections
      rest ← all_variables territories sections' ids
      return (variables ++ rest)

  unfoldable pub scheduled_rows :
      ℕ → ℕ → ℕ → VariablesByRecipient → List ℕ → Session (List NotificationDelivery)
  scheduled_rows notification_id today now variables [] = return []
  scheduled_rows notification_id today now variables (recipient_user_id ∷ ids) = do
    id ← external env.uuid4
    rest ← scheduled_rows notification_id today now variables ids
    return (
        record {
          id = id;
          notification_id = notification_id;
          notification_type = NotificationType.scheduled;
          recipient_user_id = recipient_user_id;
          operational_day = some today;
          status = DeliveryStatus.queued;
          attempt_count = 0;
          provider_message_sid = none;
          failure_reason = none;
          created_at = now;
          updated_at = now;
          content_variables = or_empty (variables_of recipient_user_id variables);
        }
        ∷ rest)

  -- What follows `bulk_create`, with its `except` branch.
  unfoldable pub after_create :
      ℕ
      → MessageTemplate
      → VariablesByRecipient
      → List User
      → List NotificationDelivery
      → ℕ
      → Outcome (Unit {0})
      → Session ScheduledReportResult
  unfolding dispatch_deliveries
  after_create notification_id template variables recipients rows unique_count (raised e) =
      return skipped_result
  after_create notification_id template variables recipients rows unique_count (ok done) = do
    outcomes ←
        dispatch_deliveries env variables template.twilio_content_sid recipients
          context.max_retry_attempts rows
    return (record {
      outcome = ScheduledReportOutcome.succeeded;
      notification_id = some notification_id;
      recipient_count = unique_count;
    })

  abbrev pub trying : {A B : Type 0} → Session A → (Outcome A → Session B) → Session B
  trying m k w = let (o, w') = m w in k o w'

  unfoldable pub create_and_dispatch :
      ℕ
      → ℕ
      → CompanyWideReportContent
      → ResolvedRecipients
      → MessageTemplate
      → Session ScheduledReportResult
  unfolding Notifications.add Users.get_many_by_ids resolve_territories all_variables scheduled_rows
      Deliveries.bulk_create after_create
  create_and_dispatch today now company_wide resolved template = do
    notification_id ← external env.uuid4
    Notifications.add
        (record {
          id = notification_id;
          notification_type = NotificationType.scheduled;
          template_id = template.id;
          created_at = now;
          created_by_user_id = none;
        })
        []
    recipients ← Users.get_many_by_ids resolved.recipient_user_ids
    territories ← resolve_territories recipients
    variables ←
        all_variables company_wide template.variable_slots territories []
          resolved.recipient_user_ids
    rows ← scheduled_rows notification_id today now variables resolved.recipient_user_ids
    trying (Deliveries.bulk_create rows)
        (after_create notification_id template variables recipients rows resolved.unique_count)

  unfoldable pub with_template :
      ℕ
      → ℕ
      → CompanyWideReportContent
      → ResolvedRecipients
      → Option MessageTemplate
      → Session ScheduledReportResult
  unfolding create_and_dispatch
  with_template today now company_wide resolved none = return skipped_result
  with_template today now company_wide resolved (some template) =
      cond_skip (has_unknown_slot template.variable_slots)
        (create_and_dispatch today now company_wide resolved template)

  unfoldable pub with_recipients : ℕ → ℕ → ResolvedRecipients → Session ScheduledReportResult
  unfolding build_company_wide_content Templates.get_by_name with_template
  with_recipients today now resolved = cond_skip (resolved.unique_count == 0) (do
    company_wide ← build_company_wide_content context today now
    template ← Templates.get_by_name "Daily Report"
    with_template today now company_wide resolved template)

  unfoldable pub run_daily_report : ℕ → ℕ → Session ScheduledReportResult
  unfolding Notifications.try_acquire_daily_report_lock Users.list_all resolve with_recipients
  run_daily_report today now = do
    acquired ← Notifications.try_acquire_daily_report_lock env
    cond_skip (not acquired) (do
      all_users ← Users.list_all
      resolved ←
          resolve
            (map (λ (u : User). u.id)
              (rows_where (λ (u : User). is_active_user u.status) all_users))
            [] []
      with_recipients today now resolved)
