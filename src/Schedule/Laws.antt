-- ===== src/Schedule/Laws.antt =====
-- Laws of the send time and its conversions.
use growth_track.RowLaws.{find?-set_where}
use growth_track.Session.{Exc, World, Env, ok, raised}
use growth_track.Prelude.{
  ℕ, ◌+◌, ◌-◌, ◌*◌, ◌/◌, ◌%◌, ◌≤◌, ◌<◌, ◌≡◌, refl, ◌↔◌, Bool, true, false, some, arith, ◌==◌, find?,
}
use growth_track.Models.{report_schedule_id, ReportSchedule}
use growth_track.Schedule.{
  utc_to_dhaka, dhaka_to_utc, is_time_of_day, get_schedule, update_schedule, shown_time,
  set_from_page, should_run_daily_report,
}

-- For an offset of less than a day and a time of day, the time in UTC is a time of day, and
-- converting it back gives the hour and the minute again.
utc_to_dhaka-dhaka_to_utc :
    (offset hour minute : ℕ)
    → offset < 1440
    → hour ≤ 23
    → minute ≤ 59
    → (is_time_of_day (dhaka_to_utc offset hour minute).0 (dhaka_to_utc offset hour minute).1
        ≡ true)
      × (utc_to_dhaka offset (dhaka_to_utc offset hour minute).0 (dhaka_to_utc offset hour minute).1
          ≡ (hour, minute))
unfolding utc_to_dhaka dhaka_to_utc
utc_to_dhaka-dhaka_to_utc offset hour minute o h m =
    let x : (((hour * 60 + minute + 1440 - offset) % 1440 / 60) * 60
            + (hour * 60 + minute + 1440 - offset) % 60
            + offset)
          % 1440
          / 60
        ≡ hour =
      omega arith in
    let y : (((hour * 60 + minute + 1440 - offset) % 1440 / 60) * 60
            + (hour * 60 + minute + 1440 - offset) % 60
            + offset)
          % 60
        ≡ minute =
      omega arith in
    (ground arith, rw (x, y))

abbrev is_schedule : ReportSchedule → Bool
is_schedule s = s.id == report_schedule_id

-- The daily job runs exactly from the send time of the present day on.
pub should_run_daily_report_iff :
    (day microsecond : ℕ) (schedule : ReportSchedule)
    → microsecond < 86400000000
    → (should_run_daily_report (day * 86400000000 + microsecond) schedule ≡ true)
      ↔ ((schedule.send_hour_utc * 60 + schedule.send_minute_utc) * 60000000 ≤ microsecond)
unfolding should_run_daily_report
should_run_daily_report_iff day microsecond schedule l =
    let same_day : (day * 86400000000 + microsecond) / 86400000000 ≡ day = omega arith in
    (λ h. ground arith, λ h. ground arith)

-- The row with a new send time.
abbrev moved : ℕ → ℕ → ℕ → ℕ → ReportSchedule → ReportSchedule
moved hour minute actor now s = record s {
  send_hour_utc = hour;
  send_minute_utc = minute;
  updated_by_user_id = some actor;
  updated_at = now;
}

module _ (env : Env) (hour minute actor : ℕ) (w : World) where
  -- A send time out of range is refused, and nothing changes.
  pub update_schedule-refused :
      is_time_of_day hour minute ≡ false
      → update_schedule env hour minute actor w ≡ (raised Exc.invalid_schedule_fields, w)
  unfolding update_schedule
  update_schedule-refused h = rw h

  update_schedule-accepted :
      (s : ReportSchedule)
      → find? is_schedule w.db.report_schedules ≡ some s
      → is_time_of_day hour minute ≡ true
      → ((update_schedule env hour minute actor w).0
          ≡ ok (moved hour minute actor (env.now w.calls) s))
        × ((get_schedule (update_schedule env hour minute actor w).1).0
            ≡ ok (moved hour minute actor (env.now w.calls) s))
  unfolding update_schedule get_schedule
  update_schedule-accepted s h t =
      let stored =
        find?-set_where is_schedule (moved hour minute actor (env.now w.calls)) (λ x. refl)
          w.db.report_schedules h in
      rw (t, stored) (refl, rw stored)

-- If the schedule row exists, the offset is less than a day and the page sends a time of day, then
-- the change succeeds, the settings page shows that time, and so does every later reading of the
-- stored schedule.
pub set_from_page-shown :
    (env : Env) (offset hour minute actor : ℕ) (w : World) (s : ReportSchedule)
    → find? (λ x. x.id == report_schedule_id) w.db.report_schedules ≡ some s
    → offset < 1440
    → hour ≤ 23
    → minute ≤ 59
    → (s' : ReportSchedule) × ((set_from_page env offset hour minute actor w).0 ≡ ok s')
      × ((get_schedule (set_from_page env offset hour minute actor w).1).0 ≡ ok s')
      × (shown_time offset s' ≡ (hour, minute))
unfolding set_from_page shown_time
set_from_page-shown env offset hour minute actor w s found o h m =
    let utc = dhaka_to_utc offset hour minute in
    let (valid, back) = utc_to_dhaka-dhaka_to_utc offset hour minute o h m in
    let (x, y) = update_schedule-accepted env utc.0 utc.1 actor w s found valid in
    (moved utc.0 utc.1 actor (env.now w.calls) s, x, y, back)
