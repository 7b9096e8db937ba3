-- ===== src/Session/Exceptions.antt =====
-- The exceptions that the domain services raise, and those of the layers below that they meet.
use growth_track.Prelude.{ℕ}

pub data Exc : Type 0 where
  -- domain/auth.py, domain/password_reset.py, domain/bootstrap.py
  invalid_credentials : Exc
  account_locked : ℕ → Exc
  invalid_reset_token bootstrap_already_complete : Exc
  -- domain/administrators.py, domain/recipients.py
  last_administrator_error role_not_allowed mobile_taken cannot_edit_administrator : Exc
  team_name_taken user_not_found team_not_found team_inactive : Exc
  recipient_list_name_taken recipient_list_not_found : Exc
  member_not_found member_inactive member_not_addressable : Exc
  consent_already_active consent_not_active consent_target_not_addressable : Exc
  version_conflict team_rename_breaks_territory_mapping : Exc
  -- domain/notifications.py, domain/report_schedule.py
  template_not_found template_name_taken invalid_template_fields invalid_variable_values : Exc
  no_recipients_selected invalid_schedule_fields : Exc
  -- reading the files of the Source System
  source_error : Exc
  -- Python and SQLAlchemy
  key_error value_error runtime_error multiple_results_found integrity_error type_error : Exc
  index_error assertion_error attribute_error data_error no_result_found cardinality_violation : Exc
