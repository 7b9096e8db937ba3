-- ===== src/Effects/Jobs.antt =====
-- What the jobs of scheduler/main.py write, and the services that they call.
use growth_track.Effects.{
  Relation, Allows, AllowsEnds, Obeys, return-Obeys, raise-Obeys, then-Obeys, reading-Obeys,
  rollback-Obeys, commit-Obeys, query-Obeys, effects, ending,
}
use growth_track.Effects.Import.{run_pipeline-Obeys}
use growth_track.Effects.Directory.{get_many_by_ids-Obeys}
use growth_track.Effects.Messaging.{resolve-Obeys}
use growth_track.Effects.Sending.{bulk_create-Obeys, dispatch_deliveries-Obeys}
use growth_track.Reports.Scheduled.Reading.{
  build_company_wide_content-IsReading, resolve_territories-IsReading, all_variables-IsReading,
}
use growth_track.Session.{Session, Env, Outcome, ok, raised}
use growth_track.Models.{User, MessageTemplate, Notification, NotificationDelivery, ReportSchedule}
use growth_track.Persistence.Settings
use growth_track.Persistence.Deliveries
use growth_track.Persistence.Deliveries.{Backoff}
use growth_track.Ingestion.Source.{Source}
use growth_track.Ingestion.Run as Run
use growth_track.Notifications.Resolution.{ResolvedRecipients}
use growth_track.Notifications.Dispatch.{VariablesByRecipient}
use growth_track.Reports.{Context}
use growth_track.Reports.Content.{
  CompanyWideReportContent, build_company_wide_content, resolve_territories,
}
use growth_track.Reports.Scheduled as Scheduled
use growth_track.Reports.Scheduled.{Sections, ScheduledReportResult}
use growth_track.Scheduler as Scheduler
use growth_track.Prelude.{ℕ, String, Bool, true, false, Option, none, some, List, [], ◌∷◌}

module _ (R : Relation) (allowed : Allows R) (ends : AllowsEnds R) where
  -- A session that is run to its outcome, and what follows on either.
  catching-Obeys :
      {A B : Type 0} (m : Session A) (k : Outcome A → Session B)
      → Obeys R m
      → ((o : Outcome A) → Obeys R (k o))
      → Obeys R (λ w. k (m w).0 (m w).1)
  catching-Obeys m k h q = record {
    obeys = λ w.
        allowed.follows w (m w).1 (k (m w).0 (m w).1).1 (h.obeys w) ((q (m w).0).obeys (m w).1);
  }

  job-Obeys : (m : Session (Unit {0})) → Obeys R m → Obeys R (Scheduler.job m)
  job-Obeys m h = record {
    obeys = λ w. allowed.follows w (m w).1 _ (h.obeys w) (ends.rolls_back (m w).1);
  }

  module _ (env : Env) where
    module _ (source : Source) where
      finish_run-Obeys :
          (run_id correlation_id started_at : ℕ) (o : Outcome (ℕ × ℕ))
          → Obeys R (Run.finish_run env source run_id correlation_id started_at o)
      unfolding Run.finish_run
      finish_run-Obeys run_id correlation_id started_at (raised e) =
          search (ending, allowed.import_runs) depth 30
      finish_run-Obeys run_id correlation_id started_at (ok (processed, rejected)) =
          search (ending, allowed.import_runs) depth 30

      import-Obeys :
          {A B : Type 0} (m : Session A) (k : Outcome A → Session B)
          → Obeys R m
          → ((o : Outcome A) → Obeys R (k o))
          → Obeys R (Run.catching env source m k)
      import-Obeys = catching-Obeys

      run_locked-Obeys : (acquired : Bool) → Obeys R (Run.run_locked env source acquired)
      unfolding Run.run_locked
      run_locked-Obeys false = return-Obeys R allowed _
      run_locked-Obeys true =
          search (effects, import-Obeys, run_pipeline-Obeys, finish_run-Obeys, allowed.import_runs)
            depth 30

      pub run_nightly_import-Obeys : Obeys R (Scheduler.run_nightly_import env source)
      unfolding Scheduler.run_nightly_import Scheduler.run_nightly_import_async Run.run
      run_nightly_import-Obeys = search (ending, job-Obeys, run_locked-Obeys) depth 30

    module _ (context : Context) where
      scheduled_rows-Obeys :
          (id today now : ℕ) (v : VariablesByRecipient) (ids : List ℕ)
          → Obeys R (Scheduled.scheduled_rows context env id today now v ids)
      unfolding Scheduled.scheduled_rows
      scheduled_rows-Obeys id today now v [] = return-Obeys R allowed []
      scheduled_rows-Obeys id today now v (i ∷ ids) =
          let ih : (k : ℕ) → Obeys R (Scheduled.scheduled_rows context env k today now v ids) =
            λ k. scheduled_rows-Obeys k today now v ids in
          search (effects, ih) depth 12

      after_create-Obeys :
          (id : ℕ) (template : MessageTemplate) (v : VariablesByRecipient) (users : List User)
          (rows : List NotificationDelivery) (count : ℕ) (o : Outcome (Unit {0}))
          → Obeys R (Scheduled.after_create context env id template v users rows count o)
      unfolding Scheduled.after_create
      after_create-Obeys id template v users rows count (raised e) = return-Obeys R allowed _
      after_create-Obeys id template v users rows count (ok done) =
          search (effects, dispatch_deliveries-Obeys) depth 12

      resolve_territories-Obeys : (us : List User) → Obeys R (resolve_territories us)
      resolve_territories-Obeys us = reading-Obeys R allowed _ (resolve_territories-IsReading us)

      content-Obeys : (today now : ℕ) → Obeys R (build_company_wide_content context today now)
      content-Obeys today now =
          reading-Obeys R allowed _ (build_company_wide_content-IsReading context env today now)

      all_variables-Obeys :
          (c : CompanyWideReportContent) (slots : List String) (ts : List (ℕ × String))
          (sections : Sections) (ids : List ℕ)
          → Obeys R (Scheduled.all_variables context env c slots ts sections ids)
      all_variables-Obeys c slots ts sections ids =
          reading-Obeys R allowed _ (all_variables-IsReading context env c slots ts sections ids)

      trying-Obeys :
          {A B : Type 0} (m : Session A) (k : Outcome A → Session B)
          → Obeys R m
          → ((o : Outcome A) → Obeys R (k o))
          → Obeys R (Scheduled.trying context env m k)
      trying-Obeys = catching-Obeys

      create_and_dispatch-Obeys :
          (today now : ℕ) (c : CompanyWideReportContent) (resolved : ResolvedRecipients)
          (template : MessageTemplate)
          → Obeys R (Scheduled.create_and_dispatch context env today now c resolved template)
      unfolding Scheduled.create_and_dispatch
      create_and_dispatch-Obeys today now c resolved template =
          search
            (
              effects, get_many_by_ids-Obeys, resolve_territories-Obeys, all_variables-Obeys,
              scheduled_rows-Obeys, trying-Obeys, bulk_create-Obeys, after_create-Obeys,
              allowed.notifications,
            )
            depth 40

      cond_skip-Obeys :
          (b : Bool) (m : Session ScheduledReportResult)
          → Obeys R m
          → Obeys R (Scheduled.cond_skip b m)
      cond_skip-Obeys true m h = return-Obeys R allowed _
      cond_skip-Obeys false m h = h

      with_template-Obeys :
          (today now : ℕ) (c : CompanyWideReportContent) (resolved : ResolvedRecipients)
          (o : Option MessageTemplate)
          → Obeys R (Scheduled.with_template context env today now c resolved o)
      unfolding Scheduled.with_template
      with_template-Obeys today now c resolved none = return-Obeys R allowed _
      with_template-Obeys today now c resolved (some t) =
          cond_skip-Obeys _ _ (create_and_dispatch-Obeys today now c resolved t)

      run_daily_report-Obeys :
          (today now : ℕ) → Obeys R (Scheduled.run_daily_report context env today now)
      unfolding Scheduled.run_daily_report Scheduled.with_recipients
      run_daily_report-Obeys today now =
          search (effects, cond_skip-Obeys, resolve-Obeys, content-Obeys, with_template-Obeys) depth
            40

      report_once-Obeys :
          (today now : ℕ) (sent : Bool) → Obeys R (Scheduler.report_once context env today now sent)
      report_once-Obeys today now true = return-Obeys R allowed tt
      report_once-Obeys today now false = search (ending, run_daily_report-Obeys) depth 20

      report_if_due-Obeys :
          (today now : ℕ) (due : Bool) → Obeys R (Scheduler.report_if_due context env today now due)
      unfolding Deliveries.exists_for_operational_day
      report_if_due-Obeys today now false = return-Obeys R allowed tt
      report_if_due-Obeys today now true = search (ending, report_once-Obeys) depth 20

      require_row-Obeys : (o : Option ReportSchedule) → Obeys R (Settings.require_row o)
      require_row-Obeys none = raise-Obeys R allowed _
      require_row-Obeys (some s) = return-Obeys R allowed s

      pub run_daily_report_job-Obeys :
          (dhaka_day : ℕ → ℕ) → Obeys R (Scheduler.run_daily_report_job context env dhaka_day)
      unfolding Scheduler.run_daily_report_job Scheduler.run_daily_report_async
      run_daily_report_job-Obeys dhaka_day =
          search (ending, job-Obeys, require_row-Obeys, report_if_due-Obeys) depth 30

      template_of-Obeys : (o : Option Notification) → Obeys R (Scheduler.template_of context env o)
      unfolding Scheduler.template_of
      template_of-Obeys none = return-Obeys R allowed none
      template_of-Obeys (some n) = query-Obeys R allowed _

      retry_row-Obeys : (row : NotificationDelivery) → Obeys R (Scheduler.retry_row context env row)
      unfolding Scheduler.retry_row
      retry_row-Obeys row = search (effects, template_of-Obeys, dispatch_deliveries-Obeys) depth 20

      settle_row-Obeys : (o : Outcome (Unit {0})) → Obeys R (Scheduler.settle_row context env o)
      settle_row-Obeys (raised e) = rollback-Obeys R ends
      settle_row-Obeys (ok done) = commit-Obeys R ends

      retry_rows-Obeys :
          (rows : List NotificationDelivery) → Obeys R (Scheduler.retry_rows context env rows)
      unfolding Scheduler.retry_rows
      retry_rows-Obeys [] = return-Obeys R allowed tt
      retry_rows-Obeys (row ∷ rows) =
          then-Obeys R allowed _ _
            (catching-Obeys (Scheduler.retry_row context env row) (Scheduler.settle_row context env)
              (retry_row-Obeys row) settle_row-Obeys)
            (retry_rows-Obeys rows)

      pub run_retry-Obeys :
          (backoff : Backoff) → Obeys R (Scheduler.run_retry_failed_deliveries context env backoff)
      unfolding Scheduler.run_retry_failed_deliveries Scheduler.run_retry_failed_deliveries_async
      run_retry-Obeys backoff = search (ending, job-Obeys, retry_rows-Obeys) depth 30
