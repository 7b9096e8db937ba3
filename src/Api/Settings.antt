-- ===== src/Api/Settings.antt =====
-- /settings/report-schedule (api/settings/routes.py).
use growth_track.Models.{ReportSchedule}
use growth_track.Session.{Exc, Session, return, ◌>>◌, commit, rollback, Env}
use growth_track.Api.Replies.{Reply, done, refused, server_error, answering}
use growth_track.Schedule as Schedule
use growth_track.Prelude.{ℕ, Option}

pub record ReportScheduleResponse : Type 0 where
  pub send_hour : ℕ
  pub send_minute : ℕ
  pub updated_at : ℕ
  pub updated_by_user_id : Option ℕ

abbrev pub to_response : ℕ → ReportSchedule → ReportScheduleResponse
to_response offset schedule =
    let (send_hour, send_minute) =
      Schedule.utc_to_dhaka offset schedule.send_hour_utc schedule.send_minute_utc in
    record {
      send_hour = send_hour;
      send_minute = send_minute;
      updated_at = schedule.updated_at;
      updated_by_user_id = schedule.updated_by_user_id;
    }

-- Nothing is committed for a refused request.
abbrev pub failed : Exc → Session (Reply ReportScheduleResponse)
failed Exc.invalid_schedule_fields = rollback >> return (refused 422 "invalid_schedule_fields")
failed e = rollback >> return server_error

unfoldable pub get_report_schedule : ℕ → Session (Reply ReportScheduleResponse)
get_report_schedule offset =
    answering failed (λ schedule. return (done (to_response offset schedule))) Schedule.get_schedule

unfoldable pub update_report_schedule : Env → ℕ → ℕ → ℕ → ℕ → Session (Reply ReportScheduleResponse)
update_report_schedule env offset send_hour send_minute current_user_id =
    answering failed (λ updated. commit >> return (done (to_response offset updated)))
      (Schedule.set_from_page env offset send_hour send_minute current_user_id)
