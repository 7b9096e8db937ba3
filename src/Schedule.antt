-- ===== src/Schedule.antt =====
-- The send time of the daily report: ReportScheduleService (domain/report_schedule.py), the
-- conversions of api/settings/routes.py and _should_run_daily_report (scheduler/main.py). An instant
-- is a number of microseconds from a midnight in UTC; the time zone data is not in the repository, so
-- the minutes by which Asia/Dhaka is ahead of UTC on the reference day are a parameter.
pub mod Laws
pub mod Dhaka
use growth_track.Prelude.{ℕ, ◌+◌, ◌-◌, ◌*◌, ◌/◌, ◌%◌, Bool, ◌&&◌, not, some, [], ◌∷◌, leb}
use growth_track.Models.{Detail, ReportSchedule}
use growth_track.Session.{Exc, Session, return, external, ◌>>=◌, ◌>>◌, raise_if, Env}
use growth_track.Persistence.Settings
use growth_track.Directory.Audit.{audit_at}

-- The hour and minute of a number of minutes, on whatever day.
abbrev pub clock_of : ℕ → ℕ × ℕ
clock_of minutes = ((minutes % 1440) / 60, minutes % 60)

-- `datetime(2026, 1, 1, hour, minute)` moved `offset` minutes ahead, or back.
unfoldable pub utc_to_dhaka : ℕ → ℕ → ℕ → ℕ × ℕ
utc_to_dhaka offset hour minute = clock_of (hour * 60 + minute + offset)

unfoldable pub dhaka_to_utc : ℕ → ℕ → ℕ → ℕ × ℕ
dhaka_to_utc offset hour minute = clock_of (hour * 60 + minute + 1440 - offset)

-- `not (0 <= hour <= 23) or not (0 <= minute <= 59)`, negated.
abbrev pub is_time_of_day : ℕ → ℕ → Bool
is_time_of_day hour minute = leb hour 23 && leb minute 59

unfoldable pub get_schedule : Session ReportSchedule
unfolding Settings.get
get_schedule = Settings.get

unfoldable pub update_schedule : Env → ℕ → ℕ → ℕ → Session ReportSchedule
unfolding Settings.update audit_at
update_schedule env send_hour_utc send_minute_utc actor_user_id = do
  raise_if (not (is_time_of_day send_hour_utc send_minute_utc)) Exc.invalid_schedule_fields
  now ← external env.now
  updated ← Settings.update send_hour_utc send_minute_utc actor_user_id now
  audit_at env updated.updated_at (some actor_user_id) "report_schedule.updated"
      (some "ReportSchedule") (some updated.id)
      (some (
        ("send_hour_utc", Detail.number send_hour_utc)
        ∷ ("send_minute_utc", Detail.number send_minute_utc)
        ∷ []))
  return updated

-- What the settings page shows: `_to_response`.
unfoldable pub shown_time : ℕ → ReportSchedule → ℕ × ℕ
unfolding utc_to_dhaka
shown_time offset schedule = utc_to_dhaka offset schedule.send_hour_utc schedule.send_minute_utc

-- The service call of `update_report_schedule` with the time that the page sends.
unfoldable pub set_from_page : Env → ℕ → ℕ → ℕ → ℕ → Session ReportSchedule
unfolding dhaka_to_utc update_schedule
set_from_page env offset send_hour send_minute actor_user_id =
    let (utc_hour, utc_minute) = dhaka_to_utc offset send_hour send_minute in
    update_schedule env utc_hour utc_minute actor_user_id

-- `now >= datetime.combine(now.date(), time(hour, minute))`.
unfoldable pub should_run_daily_report : ℕ → ReportSchedule → Bool
should_run_daily_report now schedule =
    leb
      ((now / 86400000000) * 86400000000
        + (schedule.send_hour_utc * 60 + schedule.send_minute_utc) * 60000000)
      now
