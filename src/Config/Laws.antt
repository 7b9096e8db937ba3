-- ===== src/Config/Laws.antt =====
-- What accepted settings guarantee to the jobs.
use growth_track.Models.{NotificationDelivery, ReportSchedule}
use growth_track.RowLaws.{All}
use growth_track.Config.{Settings, is_accepted, natural, backoff_of, Trigger, register_jobs}
use growth_track.Persistence.Deliveries.{is_failed_retryable, is_retry_eligible}
use growth_track.Notifications.Delivery.{IsConsistent}
use growth_track.Notifications.Retry.{wait_after, is_retry_eligible_iff}
use growth_track.Schedule.{should_run_daily_report}
use growth_track.Schedule.Laws.{should_run_daily_report_iff}
use Prim.Native.Nat.mul
use growth_track.Prelude.{
  ℕ, zero, suc, ◌+◌, ◌-◌, ◌*◌, ◌/◌, ◌≤◌, ◌<◌, String, ◌≡◌, ◌↔◌, true, ◌⊎◌, inl, inr, arith, subst,
  sym, ap, ◌∙◌,
}

-- The trigger fires: its interval is positive, or it names a time of day.
abbrev CanFire : String × Trigger → Type 0
CanFire (id, Trigger.interval seconds) = 0 < seconds
CanFire (id, Trigger.cron hour minute) = hour ≤ 23 × minute ≤ 59

-- Every job that accepted settings register can fire.
register_jobs-CanFire : (s : Settings) → is_accepted s ≡ true → All CanFire (register_jobs s)
unfolding register_jobs is_accepted
register_jobs-CanFire s h =
    (omega arith, ((ground arith, ground arith), (ground arith, (ground arith, tt))))

max_retry_attempts-bound :
    (s : Settings) → is_accepted s ≡ true → natural s.notification_max_retry_attempts ≤ 3
unfolding is_accepted
max_retry_attempts-bound s h = ground arith

poll_interval-bound :
    (s : Settings) → is_accepted s ≡ true → 0 < natural s.report_schedule_poll_interval_seconds
unfolding is_accepted
poll_interval-bound s h = ground arith

-- Under accepted settings, a row that keeps their retry budget is read by the retry job exactly if it
-- failed retryably and its wait is over: no such row is left behind, and none is sent early.
pub is_retry_eligible-accepted :
    (s : Settings) (now : ℕ) (r : NotificationDelivery)
    → is_accepted s ≡ true
    → IsConsistent (natural s.notification_max_retry_attempts) r
    → (is_retry_eligible (backoff_of s) now r ≡ true) ↔ (
        (is_failed_retryable r.status ≡ true)
        × (r.updated_at + wait_after (backoff_of s) r.attempt_count * 60000000 ≤ now))
is_retry_eligible-accepted s now r h c =
    is_retry_eligible_iff (backoff_of s) now (natural s.notification_max_retry_attempts) r
      (max_retry_attempts-bound s h) c

-- Of ticks with a positive period, one is the first at or after a given distance.
next_tick :
    (period distance : ℕ)
    → 0 < period
    → (k : ℕ) × distance ≤ k * period × k * period < distance + period
next_tick period zero p = (0, omega arith, omega arith)
next_tick period (suc distance) p =
    let (k, l, u) = next_tick period distance p in
    let side : suc distance ≤ k * period ⊎ k * period ≡ distance = omega arith in
    elim side [
      | inl h ↦ (k, h, omega arith)
      | inr h ↦
          let step : suc k * period ≡ period + distance =
            mul.suc k period ∙ ap (λ m. period + m) h in
          (suc k, omega arith, omega arith)
    ]

-- With accepted settings, if the scheduler's first tick is at or before the send time of a day in UTC
-- and the send time is at least a poll interval before the day's end, then at some tick of that day
-- the daily report is due.
pub should_run_daily_report-some_tick :
    (s : Settings) (schedule : ReportSchedule) (start day : ℕ)
    → is_accepted s ≡ true
    → start
      ≤ day * 86400000000 + (schedule.send_hour_utc * 60 + schedule.send_minute_utc) * 60000000
    → (schedule.send_hour_utc * 60 + schedule.send_minute_utc) * 60000000
        + natural s.report_schedule_poll_interval_seconds * 1000000
      ≤ 86400000000
    → (k : ℕ) × ((start + k * (natural s.report_schedule_poll_interval_seconds * 1000000))
          / 86400000000
        ≡ day)
      × (should_run_daily_report
            (start + k * (natural s.report_schedule_poll_interval_seconds * 1000000))
            schedule
          ≡ true)
should_run_daily_report-some_tick s schedule start day h b e =
    let period = natural s.report_schedule_poll_interval_seconds * 1000000 in
    let target = (schedule.send_hour_utc * 60 + schedule.send_minute_utc) * 60000000 in
    let positive = poll_interval-bound s h in
    let (k, l, u) = next_tick period (day * 86400000000 + target - start) (omega arith) in
    let tick = start + k * period in
    let since = tick - day * 86400000000 in
    let there : tick ≡ day * 86400000000 + since = omega arith in
    (
      k,
      omega arith,
      subst (λ x. should_run_daily_report x schedule ≡ true) (sym there)
          ((should_run_daily_report_iff day since schedule (omega arith)).1 (omega arith)),
    )
