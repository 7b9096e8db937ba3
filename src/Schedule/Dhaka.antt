-- ===== src/Schedule/Dhaka.antt =====
-- The due test of the daily job (scheduler/main.py), which reads days in UTC, seen from Asia/Dhaka.
use growth_track.Models.{ReportSchedule}
use growth_track.Schedule.{dhaka_to_utc, should_run_daily_report}
use growth_track.Schedule.Laws.{should_run_daily_report_iff}
use growth_track.Prelude.{
  ℕ, ◌+◌, ◌-◌, ◌*◌, ◌%◌, ◌≤◌, ◌<◌, ◌≡◌, sym, subst, ◌∙◌, ap, ◌↔◌, ◌⊎◌, inl, inr, true, arith,
}

-- The minutes in UTC of a send time.
abbrev target_of : ReportSchedule → ℕ
target_of schedule = schedule.send_hour_utc * 60 + schedule.send_minute_utc

target_of-dhaka_to_utc :
    (offset hour minute : ℕ) (schedule : ReportSchedule)
    → (schedule.send_hour_utc, schedule.send_minute_utc) ≡ dhaka_to_utc offset hour minute
    → target_of schedule ≡ (hour * 60 + minute + 1440 - offset) % 1440
unfolding dhaka_to_utc
target_of-dhaka_to_utc offset hour minute schedule e =
    let x = ap (λ p. p.0 * 60 + p.1) e in x ∙ omega arith

-- Before midnight in UTC, the day in UTC is the one before.
due_before :
    (day since now offset : ℕ) (schedule : ReportSchedule)
    → offset < 1440
    → since < offset * 60000000
    → now + offset * 60000000 ≡ (day + 1) * 86400000000 + since
    → (should_run_daily_report now schedule ≡ true)
      ↔ (target_of schedule * 60000000 + offset * 60000000 ≤ 86400000000 + since)
due_before day since now offset schedule o l n =
    let there : now ≡ day * 86400000000 + (86400000000 + since - offset * 60000000) = omega arith in
    let (f, g) =
      subst
        (λ x.
          (should_run_daily_report x schedule ≡ true)
          ↔ (target_of schedule * 60000000 ≤ 86400000000 + since - offset * 60000000))
        (sym there)
        (should_run_daily_report_iff day (86400000000 + since - offset * 60000000) schedule
          (omega arith)) in
    (λ h. let k = f h in omega arith, λ h. g (omega arith))

-- From midnight in UTC on.
due_after :
    (day since now offset : ℕ) (schedule : ReportSchedule)
    → offset * 60000000 ≤ since
    → since < 86400000000
    → now + offset * 60000000 ≡ (day + 1) * 86400000000 + since
    → (should_run_daily_report now schedule ≡ true)
      ↔ (target_of schedule * 60000000 + offset * 60000000 ≤ since)
due_after day since now offset schedule l s n =
    let there : now ≡ (day + 1) * 86400000000 + (since - offset * 60000000) = omega arith in
    let (f, g) =
      subst
        (λ x.
          (should_run_daily_report x schedule ≡ true)
          ↔ (target_of schedule * 60000000 ≤ since - offset * 60000000))
        (sym there)
        (should_run_daily_report_iff (day + 1) (since - offset * 60000000) schedule
          (omega arith)) in
    (λ h. let k = f h in omega arith, λ h. g (omega arith))

-- The minutes without the remainder.
target_cases :
    (offset t : ℕ)
    → offset < 1440
    → t < 1440
    → (offset ≤ t × ((t + 1440 - offset) % 1440 + offset ≡ t))
      ⊎ (t < offset × ((t + 1440 - offset) % 1440 + offset ≡ t + 1440))
target_cases offset t o l = omega arith

-- With an offset of less than a day and a send time set on the page, at an instant `since` microseconds
-- into a day in Dhaka that is not the first: if the send time is at or after the time in Dhaka of
-- midnight in UTC, the job is due from the send time to the end of the day, and also from the day's
-- start to midnight in UTC; if it is before, the job is due from the send time to midnight in UTC.
pub should_run_daily_report-in_Dhaka :
    (offset hour minute day since now : ℕ) (schedule : ReportSchedule)
    → offset < 1440
    → hour ≤ 23
    → minute ≤ 59
    → (schedule.send_hour_utc, schedule.send_minute_utc) ≡ dhaka_to_utc offset hour minute
    → since < 86400000000
    → now + offset * 60000000 ≡ (day + 1) * 86400000000 + since
    → (should_run_daily_report now schedule ≡ true) ↔ (
        (offset ≤ hour * 60 + minute
          × (since < offset * 60000000 ⊎ (hour * 60 + minute) * 60000000 ≤ since))
        ⊎ (hour * 60 + minute < offset
            × (hour * 60 + minute) * 60000000 ≤ since
            × since < offset * 60000000))
should_run_daily_report-in_Dhaka offset hour minute day since now schedule o h m e s n =
    let t = target_of-dhaka_to_utc offset hour minute schedule e in
    let cases = target_cases offset (hour * 60 + minute) o (omega arith) in
    let side : since < offset * 60000000 ⊎ offset * 60000000 ≤ since = omega arith in
    elim side [
      | inl l ↦
          let (f, g) = due_before day since now offset schedule o l n in
          (λ x. let y = f x in ground arith, λ x. g (ground arith))
      | inr l ↦
          let (f, g) = due_after day since now offset schedule l s n in
          (λ x. let y = f x in ground arith, λ x. g (ground arith))
    ]
