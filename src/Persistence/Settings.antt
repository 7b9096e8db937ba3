-- ===== src/Persistence/Settings.antt =====
-- SqlAlchemyReportScheduleRepository (adapters/persistence/settings.py).
use growth_track.Prelude.{ℕ, Option, none, some, ◌==◌, set_where, find?}
use growth_track.Models.{ReportSchedule, report_schedule_id}
use growth_track.Session.{Session, Exc, query, write, return, raise, ◌>>=◌, ◌>>◌}

abbrev pub require_row : Option ReportSchedule → Session ReportSchedule
require_row none = raise Exc.runtime_error
require_row (some row) = return row

unfoldable pub get : Session ReportSchedule
get = do
  row ← query (λ d. find? (λ s. s.id == report_schedule_id) d.report_schedules)
  require_row row

unfoldable pub update : ℕ → ℕ → ℕ → ℕ → Session ReportSchedule
unfolding get
update send_hour_utc send_minute_utc updated_by_user_id updated_at = do
  write (λ d. record d {
    report_schedules =
        set_where (λ s. s.id == report_schedule_id)
          (λ s. record s {
            send_hour_utc = send_hour_utc;
            send_minute_utc = send_minute_utc;
            updated_by_user_id = some updated_by_user_id;
            updated_at = updated_at;
          })
          d.report_schedules;
  })
  get
