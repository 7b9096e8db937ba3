-- ===== src/Scheduler/Laws.antt =====
-- The retry job over the life of the deliveries, and what a day's report job leaves alone.
use growth_track.Models.{User, MessageTemplate, Notification, NotificationDelivery, ReportSchedule}
use growth_track.Session.{World, Env, ok}
use growth_track.SessionLaws.{IsReading, reading, raise-IsReading, return-IsReading, after_reading}
use growth_track.Schedule.{should_run_daily_report}
use growth_track.Persistence.Settings
use growth_track.RowLaws.{All}
use growth_track.SortLaws.{All-rows_where}
use growth_track.Reports.{Context}
use growth_track.Scheduler.{
  report_if_due, run_daily_report_job, template_of, content_sid_of, recipients_of, retry_row,
  retry_rows, run_retry_failed_deliveries,
}
use growth_track.Persistence.Deliveries
use growth_track.Persistence.Templates
use growth_track.Persistence.Notifications
use growth_track.Persistence.Users
use growth_track.Persistence.Deliveries.{Backoff, may_claim, is_retry_eligible}
use growth_track.Notifications.Delivery.{IsConsistent}
use growth_track.Notifications.Webhook.OnlyRow.{Agrees-absent}
use growth_track.Notifications.Dispatch.{VariablesByRecipient, dispatch_deliveries}
use growth_track.Notifications.Dispatch.Laws.{
  dispatch_deliveries_total, dispatch_row_claimed, dispatch_row_unclaimed,
}
use growth_track.Notifications.Dispatch.Budget.{
  Agrees, row_id, Agrees-All, after_row, dispatch_deliveries-IsConsistent,
}
use growth_track.Prelude.{
  ℕ, suc, String, subst, ◌≡◌, refl, sym, inl, inr, Bool, true, false, Option, none, some, List, [],
  ◌∷◌, map, arith, ◌==◌, Bool-cases, rows_where, find?, any, contains, Distinct,
}

-- In a table with pairwise different ids, each row is the only one with its id.
Agrees-other :
    (x : NotificationDelivery) (xs rows : List NotificationDelivery)
    → contains x.id (map row_id rows) ≡ false
    → All (Agrees xs) rows
    → All (Agrees (x ∷ xs)) rows
Agrees-other x xs [] n h = tt
Agrees-other x xs (r ∷ rows) n h =
    ((λ e. ground (arith, e, n), h.0), Agrees-other x xs rows (ground (arith, n)) h.1)

Distinct-Agrees : (xs : List NotificationDelivery) → Distinct (map row_id xs) → All (Agrees xs) xs
Distinct-Agrees [] d = tt
Distinct-Agrees (x ∷ xs) d =
    ((λ e. refl, Agrees-absent xs x d.0), Agrees-other x xs xs d.0 (Distinct-Agrees xs d.1))

contains-rows_where :
    (p : NotificationDelivery → Bool) (k : ℕ) (xs : List NotificationDelivery)
    → contains k (map row_id xs) ≡ false
    → contains k (map row_id (rows_where p xs)) ≡ false
contains-rows_where p k [] n = refl
contains-rows_where p k (x ∷ xs) n = ground (arith, n, contains-rows_where p k xs)

Distinct-rows_where :
    (p : NotificationDelivery → Bool) (xs : List NotificationDelivery)
    → Distinct (map row_id xs)
    → Distinct (map row_id (rows_where p xs))
Distinct-rows_where p [] d = tt
Distinct-rows_where p (x ∷ xs) d = elim (Bool-cases (p x)) [
  | inl e ↦ rw e (contains-rows_where p x.id xs d.0, Distinct-rows_where p xs d.1)
  | inr e ↦ rw e (Distinct-rows_where p xs d.1)
]

module _ (env : Env) (budget : ℕ) (vars : VariablesByRecipient) (sid : String)
    (recipients : List User) where
  -- The table after the dispatch of one row still holds the others as they were read.
  one_row-Agrees :
      (row : NotificationDelivery) (rows : List NotificationDelivery) (w : World)
      → contains row.id (map row_id rows) ≡ false
      → All (Agrees w.db.notification_deliveries) rows
      → All
          (Agrees
            (dispatch_deliveries env vars sid recipients budget
              (row ∷ [])
              w).1.db.notification_deliveries)
          rows
  unfolding dispatch_deliveries
  one_row-Agrees row rows w n g =
      elim (Bool-cases (any (may_claim row.id) w.db.notification_deliveries)) [
        | inl c ↦
            let (reply, t, u, k, box, e, b) =
              dispatch_row_claimed env vars sid recipients budget row w c in
            subst (λ v. All (Agrees v.db.notification_deliveries) rows)
              (sym (after_row env vars sid recipients budget row [] w _ e))
              (Agrees-All budget row reply t u w.db.notification_deliveries rows n g)
        | inr c ↦
            subst (λ v. All (Agrees v.db.notification_deliveries) rows)
              (sym (
                after_row env vars sid recipients budget row [] w _
                  (dispatch_row_unclaimed env vars sid recipients budget row w c)))
              g
      ]

template_of_lem :
    (context : Context) (env : Env) (o : Option Notification) (w : World)
    → (t : Option MessageTemplate) × (template_of context env o w ≡ (ok t, w))
unfolding template_of Templates.get_by_id
template_of_lem context env none w = (none, refl)
template_of_lem context env (some n) w = (_, refl)

require_row-IsReading : (o : Option ReportSchedule) → IsReading (Settings.require_row o)
require_row-IsReading none = raise-IsReading _
require_row-IsReading (some row) = return-IsReading row

module _ (context : Context) (env : Env) where
  -- A row never raises: its retry is one round of the dispatch loop.
  retry_row_lem :
      (row : NotificationDelivery) (w : World)
      → (vars : VariablesByRecipient) × (sid : String) × (recipients : List User) × (retry_row
            context env row w
          ≡ (
            ok tt,
            (dispatch_deliveries env vars sid recipients context.max_retry_attempts (row ∷ []) w).1,
          ))
  unfolding retry_row Notifications.get_by_id Users.get_by_id
  retry_row_lem row w =
      let (t, e) =
        template_of_lem context env (find? (λ n. n.id == row.notification_id) w.db.notifications)
          w in
      let vars : VariablesByRecipient = (row.recipient_user_id, row.content_variables) ∷ [] in
      let sid = content_sid_of context env t in
      let recipients =
        recipients_of context env t (find? (λ u. u.id == row.recipient_user_id) w.db.users) in
      let (os, v, f, d, c, l, b) =
        dispatch_deliveries_total env vars sid recipients context.max_retry_attempts (row ∷ []) w in
      (vars, sid, recipients, rw (e, f) refl)

  retry_rows_lem :
      (rows : List NotificationDelivery) (w : World)
      → All (IsConsistent context.max_retry_attempts) w.db.notification_deliveries
      → Distinct (map row_id rows)
      → All (Agrees w.db.notification_deliveries) rows
      → (v : World) × (retry_rows context env rows w ≡ (ok tt, v))
        × All (IsConsistent context.max_retry_attempts) v.db.notification_deliveries
  unfolding retry_rows
  retry_rows_lem [] w h d g = (w, refl, h)
  retry_rows_lem (row ∷ rows) w h d g =
      let (vars, sid, recipients, e) = retry_row_lem row w in
      let v : World =
        (dispatch_deliveries env vars sid recipients context.max_retry_attempts (row ∷ []) w).1 in
      let kept =
        dispatch_deliveries-IsConsistent env vars sid recipients context.max_retry_attempts
          (row ∷ []) w h (refl, tt) (g.0, tt) in
      let rest =
        one_row-Agrees env context.max_retry_attempts vars sid recipients row rows w d.0 g.1 in
      let (u, f, k) = retry_rows_lem rows (record v { committed = v.db }) kept d.1 rest in
      (u, rw (e, f) refl, k)

  -- If every delivery keeps the retry budget and the ids are pairwise different, then after the retry
  -- job every delivery that is stored keeps the retry budget, and everything that is left is stored.
  pub run_retry_failed_deliveries-IsConsistent :
      (backoff : Backoff) (w : World)
      → All (IsConsistent context.max_retry_attempts) w.db.notification_deliveries
      → Distinct (map row_id w.db.notification_deliveries)
      → All
          (IsConsistent context.max_retry_attempts)
          (run_retry_failed_deliveries context env backoff w).1.committed.notification_deliveries
        × ((run_retry_failed_deliveries context env backoff w).1.db
            ≡ (run_retry_failed_deliveries context env backoff w).1.committed)
  unfolding run_retry_failed_deliveries Deliveries.list_retry_eligible
  run_retry_failed_deliveries-IsConsistent backoff w h d =
      let table = w.db.notification_deliveries in
      let p = is_retry_eligible backoff (env.now w.calls) in
      let (v, e, k) =
        retry_rows_lem (rows_where p table) (record w { calls = suc w.calls }) h
          (Distinct-rows_where p table d)
          (All-rows_where (Agrees table) p table (Distinct-Agrees table d)) in
      rw e (k, refl)

  get-IsReading : IsReading Settings.get
  unfolding Settings.get
  get-IsReading = search (reading, require_row-IsReading)

  report_if_due-idle :
      (today now : ℕ) (due : Bool) (w : World)
      → any (λ r. Deliveries.same_day r.operational_day (some today)) w.db.notification_deliveries
        ≡ true
      → ((report_if_due context env today now due w).1.committed ≡ w.committed)
        × ((report_if_due context env today now due w).1.outbox ≡ w.outbox)
  unfolding Deliveries.exists_for_operational_day
  report_if_due-idle today now false w h = (refl, refl)
  report_if_due-idle today now true w h = rw h (refl, refl)

  -- On a day with a delivery the report job commits nothing and hands over no message.
  pub run_daily_report_job_idle :
      (dhaka_day : ℕ → ℕ) (w : World)
      → any
          (λ r. Deliveries.same_day r.operational_day (some (dhaka_day (env.now w.calls))))
          w.db.notification_deliveries
        ≡ true
      → ((run_daily_report_job context env dhaka_day w).1.committed ≡ w.committed)
        × ((run_daily_report_job context env dhaka_day w).1.outbox ≡ w.outbox)
  unfolding run_daily_report_job
  run_daily_report_job_idle dhaka_day w h =
      let now = env.now w.calls in
      after_reading
        (λ s. report_if_due context env (dhaka_day now) now (should_run_daily_report now s))
        (λ x. (x.1.committed ≡ w.committed) × (x.1.outbox ≡ w.outbox)) Settings.get get-IsReading
        (record w { calls = suc w.calls }) (λ e n. (refl, refl))
        (λ s n.
          report_if_due-idle (dhaka_day now) now (should_run_daily_report now s)
            (record w { calls = n }) h)
