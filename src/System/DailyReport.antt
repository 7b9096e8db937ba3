-- ===== src/System/DailyReport.antt =====
-- The daily report over the life of the program (scheduler/main.py).
use growth_track.Effects.{KeepsKey}
use growth_track.Models.{NotificationDelivery}
use growth_track.Session.{World}
use growth_track.Persistence.Deliveries.{insert_rows, same_day, clashes}
use growth_track.Scheduler.{run_daily_report_job}
use growth_track.Scheduler.Laws.{run_daily_report_job_idle}
use growth_track.System.{Setup, Request, serve_all}
use growth_track.System.Stable.{IsStable, serve_all-stable}
use growth_track.Prelude.{
  ℕ, ◌≡◌, refl, ◌∙◌, ap, inl, inr, Bool, true, none, some, List, [], ◌∷◌, arith, Bool-cases, any,
  set_where,
}

module _ (day : ℕ) where
  abbrev of_day : NotificationDelivery → Bool
  of_day r = same_day r.operational_day (some day)

  insert_rows-keeps :
      (rows table table' : List NotificationDelivery)
      → insert_rows rows table ≡ some table'
      → any of_day table ≡ true
      → any of_day table' ≡ true
  unfolding insert_rows
  insert_rows-keeps [] table table' h u = ground (arith, h, u)
  insert_rows-keeps (row ∷ rows) table table' h u = elim (Bool-cases (any (clashes row) table)) [
    | inl e ↦ let bad : none ≡ some table' = rw e at h in cc
    | inr e ↦
        let rest : insert_rows rows (row ∷ table) ≡ some table' = rw e at h in
        insert_rows-keeps rows (row ∷ table) table' rest (ground (arith, u))
  ]

  touch-keeps :
      (p : NotificationDelivery → Bool) (f : NotificationDelivery → NotificationDelivery)
      → KeepsKey f
      → (xs : List NotificationDelivery) → any of_day (set_where p f xs) ≡ any of_day xs
  touch-keeps p f k [] = refl
  touch-keeps p f k (x ∷ xs) =
      let same : of_day (f x) ≡ of_day x = ap (λ d. same_day d (some day)) (k.keeps_day x) in
      elim (Bool-cases (p x)) [
        | inl h ↦ rw h (rw (same, touch-keeps p f k xs))
        | inr h ↦ rw h (rw (touch-keeps p f k xs))
      ]

  of_day-IsStable : IsStable (λ l. any of_day l.deliveries ≡ true)
  of_day-IsStable = record {
    audit = λ entry l h. h;
    revoke = λ jti at l h. h;
    add_token = λ token l h. h;
    mark_used = λ id at l h. h;
    insert = λ rows table l e h. insert_rows-keeps rows l.deliveries table e h;
    touch = λ p f k l h. touch-keeps p f k l.deliveries ∙ h;
  }

-- Once a day has a delivery, open and committed, then whatever requests and jobs follow, a report job
-- that runs on that day commits nothing and hands over no message.
pub run_daily_report_job-once :
    (s : Setup) (requests : List Request) (w : World) (day : ℕ)
    → any (of_day day) w.db.notification_deliveries ≡ true
    → any (of_day day) w.committed.notification_deliveries ≡ true
    → s.dhaka_day (s.env.now (serve_all s requests w).calls) ≡ day
    → ((run_daily_report_job s.context s.env s.dhaka_day (serve_all s requests w)).1.committed
        ≡ (serve_all s requests w).committed)
      × ((run_daily_report_job s.context s.env s.dhaka_day (serve_all s requests w)).1.outbox
          ≡ (serve_all s requests w).outbox)
run_daily_report_job-once s requests w day h k today =
    let held =
      serve_all-stable (λ l. any (of_day day) l.deliveries ≡ true) (of_day-IsStable day) s requests
        w h k in
    run_daily_report_job_idle s.context s.env s.dhaka_day (serve_all s requests w)
      (ap (λ d. any (of_day d) (serve_all s requests w).db.notification_deliveries) today ∙ held.0)
