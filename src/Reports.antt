-- ===== src/Reports.antt =====
-- The dashboard's figures (domain/metrics.py), their texts (domain/report_formatting.py), the
-- content of the daily report (domain/daily_report.py) and the report's run
-- (domain/scheduled_notifications.py).
pub mod Dashboard
pub mod Formatting
pub mod Content
pub mod Scheduled
use growth_track.Prelude.{ℕ, String}

-- The settings of the reports (config.py), and what they take from Python's library.
pub record Context : Type 0 where
  pub stale_after : ℕ
  pub brand_top_n : ℕ
  pub brand_low_performing_n : ℕ
  pub brand_focus_n : ℕ
  pub report_top_doctors_n : ℕ
  pub max_retry_attempts : ℕ
  -- `today.replace(month=1, day=1)` and `today.replace(day=1)`
  pub year_start : ℕ → ℕ
  pub month_start : ℕ → ℕ
  -- `uuid.hex`, and `str` of a natural number
  pub hex : ℕ → String
  pub str : ℕ → String
  -- the number of the common unit of all Decimals that make 1, less one
  pub unit_pred : ℕ
