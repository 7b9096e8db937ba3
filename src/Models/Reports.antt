-- ===== src/Models/Reports.antt =====
-- The report schedule and the imported reference data (domain/models.py). A Decimal is a whole
-- number of a common unit, with its sign.
use growth_track.Prelude.{ℕ, String, Option, ℤ}

pub record BrandPerformance : Type 0 where
  pub id : ℕ
  pub external_brand_id : String
  pub brand_name : String
  pub sales : ℤ
  pub rank : ℤ
  pub growth_pct : ℤ

pub record Doctor : Type 0 where
  pub id : ℕ
  pub external_doctor_id : String
  pub name : String
  pub territory : String
  pub priority : ℤ

pub record ReportSchedule : Type 0 where
  pub id : ℕ
  pub send_hour_utc : ℕ
  pub send_minute_utc : ℕ
  pub updated_at : ℕ
  pub updated_by_user_id : Option ℕ

-- REPORT_SCHEDULE_ID, the key of the one row.
abbrev pub report_schedule_id : ℕ
report_schedule_id = 1
