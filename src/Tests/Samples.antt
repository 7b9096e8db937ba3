-- ===== src/Tests/Samples.antt =====
-- A small directory: two administrators, two sales users of one team, one of them with an opt-in.
use growth_track.Models.{
  Role, UserStatus, TeamStatus, ThemePreference, User, PasswordResetToken, Team, OptInConsent,
  NotificationType, DeliveryStatus, MessageTemplate, NotificationDelivery, Doctor,
}
use growth_track.Session.{Database, World, Env, accepted}
use growth_track.Prelude.{◌+◌, String, Bool, true, false, Option, none, some, [], ◌∷◌, str_eq, pos}

abbrev matches : String → Option String → Bool
matches s none = false
matches s (some t) = str_eq s t

-- The provider accepts every message, and the clock counts the calls from 1000.
abbrev pub sample_env : Env
sample_env = record {
  uuid4 = λ k. 500 + k;
  now = λ k. 1000 + k;
  send = λ k m. accepted "SM9";
  hash = λ k s. s;
  verify = λ s h. matches s h;
  token_urlsafe = λ k. "token";
  sha256 = λ s. s;
  key_error_text = λ k. "missing key";
  lower = λ s. s;
  try_lock = λ key k. true;
}

abbrev pub admin : User
admin = record {
  id = 1;
  username = some "admin";
  hashed_password = some "secret";
  role = Role.administrator;
  status = UserStatus.active;
  version = 1;
  created_at = 0;
  name = none;
  mobile = none;
  team_id = none;
  failed_login_count = 0;
  locked_until = none;
  theme_preference = ThemePreference.system;
}

abbrev pub deputy : User
deputy = record admin { id = 2; username = some "deputy"; locked_until = some 2000 }

abbrev pub alice : User
alice = record {
  id = 3;
  username = none;
  hashed_password = none;
  role = Role.sales_user;
  status = UserStatus.active;
  version = 1;
  created_at = 0;
  name = some "Alice";
  mobile = some "+8801";
  team_id = some 10;
  failed_login_count = 0;
  locked_until = none;
  theme_preference = ThemePreference.system;
}

abbrev pub bob : User
bob = record alice { id = 4; name = some "Bob"; mobile = some "+8802" }

abbrev pub dhaka : Team
dhaka = record { id = 10; name = "Dhaka"; status = TeamStatus.active; version = 1 }

abbrev pub opt_in : OptInConsent
opt_in = record { id = 20; user_id = 3; mobile = "+8801"; granted_at = 5; revoked_at = none }

abbrev pub monthly : MessageTemplate
monthly = record {
  id = 30;
  name = "Monthly";
  twilio_content_sid = "HX1";
  variable_slots = "month" ∷ [];
  body_preview_template = "Sales of {{1}}";
  created_at = 0;
}

abbrev pub queued_row : NotificationDelivery
queued_row = record {
  id = 40;
  notification_id = 50;
  notification_type = NotificationType.manual;
  recipient_user_id = 3;
  operational_day = none;
  status = DeliveryStatus.queued;
  attempt_count = 0;
  provider_message_sid = none;
  failure_reason = none;
  created_at = 0;
  updated_at = 0;
  content_variables = [];
}

abbrev pub sent_row : NotificationDelivery
sent_row = record queued_row {
  id = 41;
  status = DeliveryStatus.sending;
  attempt_count = 1;
  provider_message_sid = some "SM1";
}

abbrev pub failed_row : NotificationDelivery
failed_row = record queued_row {
  id = 42;
  status = DeliveryStatus.failed_retryable;
  attempt_count = 2;
}

abbrev pub reset_token : PasswordResetToken
reset_token = record {
  id = 60;
  user_id = 1;
  token_hash = "token";
  expires_at = 2000;
  used_at = none;
  created_at = 0;
}

abbrev pub doctor : Doctor
doctor = record {
  id = 70;
  external_doctor_id = "D1";
  name = "Dr";
  territory = " Dhaka";
  priority = pos 1;
}

abbrev pub sample_db : Database
sample_db = record {
  users = admin ∷ deputy ∷ alice ∷ bob ∷ [];
  teams = dhaka ∷ [];
  recipient_lists = [];
  recipient_list_members = [];
  opt_in_consents = opt_in ∷ [];
  message_templates = monthly ∷ [];
  notifications = [];
  notification_targets = [];
  notification_deliveries = queued_row ∷ sent_row ∷ failed_row ∷ [];
  audit_log_entries = [];
  revoked_tokens = [];
  password_reset_tokens = reset_token ∷ [];
  report_schedules = [];
  doctors = doctor ∷ [];
  brand_performance = [];
  sales_data = [];
  import_runs = [];
  staging_sales_data = [];
  staging_brand_performance = [];
  staging_doctors = [];
}

abbrev pub sample_world : World
sample_world = record { db = sample_db; committed = sample_db; calls = 0; outbox = [] }
