-- ===== src/Reports/Scheduled/Laws.antt =====
-- Which messages a run of the daily report hands over.
use growth_track.RowLaws.{All}
use growth_track.Models.{
  is_active_user, User, NotificationType, DeliveryStatus, MessageTemplate, NotificationDelivery,
}
use growth_track.Session.{Exc, Session, ◌>>=◌, World, Env, Outcome, ok, raised}
use growth_track.SessionLaws.{after_reading}
use growth_track.Reports.{Context}
use growth_track.Reports.Content.{
  CompanyWideReportContent, build_company_wide_content, resolve_territories,
}
use growth_track.Reports.Scheduled.{
  ScheduledReportOutcome, ScheduledReportResult, or_empty, all_variables, has_unknown_slot,
  scheduled_rows, after_create, trying, create_and_dispatch, with_template, with_recipients,
  run_daily_report,
}
use growth_track.Persistence.Users
use growth_track.Persistence.Templates
use growth_track.Persistence.Notifications
use growth_track.Persistence.Deliveries
use growth_track.Persistence.Deliveries.{insert_rows, clashes}
use growth_track.Notifications.Resolution.{resolve, ResolvedRecipients}
use growth_track.Notifications.Dispatch.{VariablesByRecipient, variables_of}
use growth_track.Notifications.Dispatch.Laws.{dispatch_deliveries_total}
use growth_track.Notifications.Dispatch.Identity.{identity, dispatch_deliveries-identity}
use growth_track.Prelude.{
  ◌≤◌, ◌+◌, true, false, length, ◌⊎◌, ℕ, suc, compare, ◌≡◌, refl, sym, ap, ◌∙◌, Distinct, inl, inr,
  Bool, Option, none, some, List, [], ◌∷◌, map, arith, ◌==◌, Bool-cases, rows_where, sorted,
}
use growth_track.Reports.Scheduled.Reading.{
  get_by_name-IsReading, get_many_by_ids-IsReading, resolve-IsReading,
  resolve_territories-IsReading, build_company_wide_content-IsReading, all_variables-IsReading,
}
use growth_track.Reports.Scheduled.Batch.{IsNew, OfDay, onto, recipient_of, insert_rows-IsNew}

abbrev pub is_succeeded : Outcome ScheduledReportResult → Bool
is_succeeded (raised e) = false
is_succeeded (ok r) = elim r.outcome [
  | ScheduledReportOutcome.succeeded ↦ true
  | ScheduledReportOutcome.skipped ↦ false
]

-- What a run that ends with the outcome and the world `x` has done to the world `w`.
abbrev pub Dispatched : ℕ → World → Outcome ScheduledReportResult × World → Type 0
Dispatched today w x =
    (x.1.committed ≡ w.committed)
    × (((is_succeeded x.0 ≡ false) × (x.1.outbox ≡ w.outbox))
        ⊎ ((rows : List NotificationDelivery) × (is_succeeded x.0 ≡ true)
            × All (IsNew today w.db.notification_deliveries) rows
            × Distinct (map recipient_of rows)
            × (map identity x.1.db.notification_deliveries
                ≡ map identity (onto rows w.db.notification_deliveries))
            × (length x.1.outbox ≤ length w.outbox + length rows)))

module _ (context : Context) (env : Env) (today now : ℕ) where
  scheduled_rows_lem :
      (k : ℕ) (vs : VariablesByRecipient) (ids : List ℕ) (w : World)
      → (rows : List NotificationDelivery) × (n : ℕ) × (scheduled_rows context env k today now vs
            ids w
          ≡ (ok rows, record w { calls = n }))
        × All (OfDay today) rows
  unfolding scheduled_rows
  scheduled_rows_lem k vs [] w = ([], w.calls, refl, tt)
  scheduled_rows_lem k vs (i ∷ ids) w =
      let (rows, n, e, h) = scheduled_rows_lem k vs ids (record w { calls = suc w.calls }) in
      let row : NotificationDelivery = record {
        id = env.uuid4 w.calls;
        notification_id = k;
        notification_type = NotificationType.scheduled;
        recipient_user_id = i;
        operational_day = some today;
        status = DeliveryStatus.queued;
        attempt_count = 0;
        provider_message_sid = none;
        failure_reason = none;
        created_at = now;
        updated_at = now;
        content_variables = or_empty (variables_of i vs);
      } in
      (row ∷ rows, n, rw e refl, ((refl, refl), h))

  module _ (k unique_count : ℕ) (template : MessageTemplate) (vs : VariablesByRecipient)
      (us : List User) (rows : List NotificationDelivery) where
    flushed-Dispatched :
        (o : Option (List NotificationDelivery)) (w : World)
        → insert_rows rows w.db.notification_deliveries ≡ o
        → All (OfDay today) rows
        → Dispatched today w (
            trying context env
              (Deliveries.flush_rows o)
              (after_create context env k template vs us rows unique_count)
              w)
    unfolding Deliveries.flush_rows after_create
    flushed-Dispatched none w e h = (refl, inl (refl, refl))
    flushed-Dispatched (some table) w e h =
        let inserted : World = record w { db = record w.db { notification_deliveries = table } } in
        let (outcomes, v, f, d, c, n, b) =
          dispatch_deliveries_total env vs template.twilio_content_sid us context.max_retry_attempts
            rows inserted in
        let (os, u, g, kept) =
          dispatch_deliveries-identity env vs template.twilio_content_sid us
            context.max_retry_attempts rows inserted in
        let (same, new, distinct) =
          insert_rows-IsNew today rows w.db.notification_deliveries table e h in
        let one : u ≡ v = ap (λ x. x.1) (sym g ∙ f) in
        rw f (
          c,
          inr (
            rows,
            refl,
            new,
            distinct,
            ap (λ x. map identity x.db.notification_deliveries) (sym one)
                ∙ kept
                ∙ ap (map identity) same,
            omega (arith, n, b),
          ),
        )

    created-Dispatched :
        (w : World)
        → All (OfDay today) rows
        → Dispatched today w (
            trying context env
              (Deliveries.bulk_create rows)
              (after_create context env k template vs us rows unique_count)
              w)
    unfolding Deliveries.bulk_create
    created-Dispatched w h =
        flushed-Dispatched (insert_rows rows w.db.notification_deliveries) w refl h

  -- Nothing has been sent yet.
  raised-Dispatched :
      (w : World) (e : Exc) (n : ℕ) → Dispatched today w (raised e, record w { calls = n })
  raised-Dispatched w e n = (refl, inl (refl, refl))

  -- The world after `notifications.add` and some more calls.
  abbrev noted : MessageTemplate → World → ℕ → World
  noted t w n = record w {
    calls = n;
    db = record w.db {
      notifications =
          record {
            id = env.uuid4 w.calls;
            notification_type = NotificationType.scheduled;
            template_id = t.id;
            created_at = now;
            created_by_user_id = none;
          }
          ∷ w.db.notifications;
    };
  }

  -- What follows the content variables.
  abbrev sending :
      ℕ
      → ResolvedRecipients
      → MessageTemplate
      → List User
      → VariablesByRecipient
      → Session ScheduledReportResult
  sending k r t us vs = scheduled_rows context env k today now vs r.recipient_user_ids >>= λ rows.
      trying context env (Deliveries.bulk_create rows)
        (after_create context env k t vs us rows r.unique_count)

  sending-Dispatched :
      (r : ResolvedRecipients) (t : MessageTemplate) (us : List User) (vs : VariablesByRecipient)
      (w : World) (n : ℕ)
      → Dispatched today w (sending (env.uuid4 w.calls) r t us vs (noted t w n))
  sending-Dispatched r t us vs w n =
      let (rows, j, e, h) =
        scheduled_rows_lem (env.uuid4 w.calls) vs r.recipient_user_ids (noted t w n) in
      rw e (created-Dispatched (env.uuid4 w.calls) r.unique_count t vs us rows (noted t w j) h)

  create_and_dispatch-Dispatched :
      (c : CompanyWideReportContent) (r : ResolvedRecipients) (t : MessageTemplate) (w : World)
      → Dispatched today w (create_and_dispatch context env today now c r t w)
  unfolding create_and_dispatch Notifications.add
  create_and_dispatch-Dispatched c r t w =
      after_reading
        (λ us. resolve_territories us >>= λ ts.
          all_variables context env c t.variable_slots ts [] r.recipient_user_ids >>= λ vs.
          sending (env.uuid4 w.calls) r t us vs)
        (Dispatched today w) (Users.get_many_by_ids r.recipient_user_ids)
        (get_many_by_ids-IsReading r.recipient_user_ids) (noted t w (suc w.calls))
        (raised-Dispatched w)
        (λ us n.
          after_reading
            (λ ts. all_variables context env c t.variable_slots ts [] r.recipient_user_ids >>= λ vs.
              sending (env.uuid4 w.calls) r t us vs)
            (Dispatched today w) (resolve_territories us) (resolve_territories-IsReading us)
            (noted t w n) (raised-Dispatched w)
            (λ ts m.
              after_reading (λ vs. sending (env.uuid4 w.calls) r t us vs) (Dispatched today w)
                (all_variables context env c t.variable_slots ts [] r.recipient_user_ids)
                (all_variables-IsReading context env c t.variable_slots ts [] r.recipient_user_ids)
                (noted t w m) (raised-Dispatched w) (λ vs j. sending-Dispatched r t us vs w j)))

  with_template-Dispatched :
      (c : CompanyWideReportContent) (r : ResolvedRecipients) (o : Option MessageTemplate)
      (w : World)
      → Dispatched today w (with_template context env today now c r o w)
  unfolding with_template
  with_template-Dispatched c r none w = (refl, inl (refl, refl))
  with_template-Dispatched c r (some t) w = elim (Bool-cases (has_unknown_slot t.variable_slots)) [
    | inl e ↦ rw e (refl, inl (refl, refl))
    | inr e ↦ rw e (create_and_dispatch-Dispatched c r t w)
  ]

  with_content-Dispatched :
      (r : ResolvedRecipients) (c : CompanyWideReportContent) (w : World)
      → Dispatched today w (
          (Templates.get_by_name "Daily Report" >>= λ o. with_template context env today now c r o)
            w)
  with_content-Dispatched r c w =
      after_reading (λ o. with_template context env today now c r o) (Dispatched today w)
        (Templates.get_by_name "Daily Report") (get_by_name-IsReading "Daily Report") w
        (raised-Dispatched w) (λ o n. with_template-Dispatched c r o (record w { calls = n }))

  with_recipients-Dispatched :
      (r : ResolvedRecipients) (w : World)
      → Dispatched today w (with_recipients context env today now r w)
  unfolding with_recipients
  with_recipients-Dispatched r w = elim (Bool-cases (r.unique_count == 0)) [
    | inl e ↦ rw e (refl, inl (refl, refl))
    | inr e ↦ rw e (
        after_reading
          (λ c.
            Templates.get_by_name "Daily Report" >>= λ o. with_template context env today now c r o)
          (Dispatched today w) (build_company_wide_content context today now)
          (build_company_wide_content-IsReading context env today now) w (raised-Dispatched w)
          (λ c n. with_content-Dispatched r c (record w { calls = n })))
  ]

  -- A run of the daily report commits nothing. It hands over messages only if it succeeds, at most
  -- one for each row of a batch: these rows stand in the table, on top of the earlier ones, are
  -- scheduled rows of the day, and go to pairwise different recipients, none of whom had a delivery
  -- of the day's report.
  pub run_daily_report-Dispatched :
      (w : World) → Dispatched today w (run_daily_report context env today now w)
  unfolding run_daily_report Users.list_all Notifications.try_acquire_daily_report_lock
  run_daily_report-Dispatched w =
      elim (Bool-cases (env.try_lock Notifications.daily_report_lock_key w.calls)) [
        | inr e ↦ rw e (refl, inl (refl, refl))
        | inl e ↦
            let ids =
              map (λ (u : User). u.id)
                (rows_where (λ (u : User). is_active_user u.status)
                  (sorted (λ u v. compare u.created_at v.created_at) w.db.users)) in
            rw e (
              after_reading (with_recipients context env today now) (Dispatched today w)
                (resolve ids [] []) (resolve-IsReading ids) (record w { calls = suc w.calls })
                (raised-Dispatched w)
                (λ r n. with_recipients-Dispatched r (record w { calls = n })))
      ]
