-- ===== src/Ingestion/Run/Laws.antt =====
-- The transactions of `SourceSystemImportService.run`.
use growth_track.Models.{ImportRunStatus, ImportRun}
use growth_track.Session.{World, Env, Outcome, ok, raised}
use growth_track.Ingestion.Source.{Source}
use growth_track.Ingestion.Pipeline.{run_pipeline}
use growth_track.Ingestion.Pipeline.Quiet.{run_pipeline-IsQuiet}
use growth_track.Ingestion.Run.{ImportOutcome, ImportRunResult, finish_run, run_locked, run}
use growth_track.Persistence.ImportRuns.{
  new_run, put_failed, with_import_runs, start, try_acquire_lock,
}
use growth_track.Prelude.{ℕ, suc, ◌≡◌, refl, ap, ◌⊎◌, inl, inr, Bool, true, false, none, some}

-- What a run that ends in the world `v` has done to the world `w`.
abbrev pub Skipped : World → ImportRunResult → World → Type 0
Skipped w r v =
    (r.outcome ≡ ImportOutcome.skipped)
    × (r.run_id ≡ none)
    × (v.db ≡ w.db)
    × (v.committed ≡ w.committed)

abbrev pub Succeeded : World → ImportRunResult → World → Type 0
Succeeded w r v = (r.outcome ≡ ImportOutcome.succeeded) × (v.committed ≡ w.committed)

abbrev pub Failed : World → ImportRunResult → World → Type 0
Failed w r v =
    (r.outcome ≡ ImportOutcome.failed)
    × (failed_run : ImportRun) × (failed_run.status ≡ ImportRunStatus.failed)
    × (r.run_id ≡ some failed_run.id)
    × (v.committed ≡ with_import_runs w.committed (put_failed failed_run w.committed.import_runs))
    × (v.db ≡ v.committed)

abbrev pub Reported : World → Outcome ImportRunResult × World → Type 0
Reported w x =
    (r : ImportRunResult) × (x.0 ≡ ok r)
    × (x.1.outbox ≡ w.outbox)
    × (Skipped w r x.1 ⊎ Succeeded w r x.1 ⊎ Failed w r x.1)

module _ (env : Env) (source : Source) where
  finish_run-Reported :
      (run_id correlation_id started_at : ℕ) (w : World) (o : Outcome (ℕ × ℕ)) (v : World)
      → v.committed ≡ w.committed
      → v.outbox ≡ w.outbox
      → Reported w (finish_run env source run_id correlation_id started_at o v)
  unfolding finish_run
  finish_run-Reported run_id correlation_id started_at w (ok counts) v c b =
      (_, refl, b, inr (inl (refl, c)))
  finish_run-Reported run_id correlation_id started_at w (raised e) v c b =
      let r =
        new_run run_id correlation_id started_at ImportRunStatus.failed (some (env.now v.calls)) in
      let kept = ap (λ d. with_import_runs d (put_failed r d.import_runs)) c in
      (_, refl, b, inr (inr (refl, r, refl, refl, kept, refl)))

  run_locked-Reported : (b : Bool) (w : World) → Reported w (run_locked env source b w)
  unfolding run_locked start
  run_locked-Reported false w = (_, refl, refl, inl (refl, refl, refl, refl))
  run_locked-Reported true w =
      let id = env.uuid4 (suc (suc w.calls)) in
      finish_run-Reported id (env.uuid4 w.calls) (env.now (suc w.calls)) w
        (run_pipeline env source id _).0 (run_pipeline env source id _).1
        ((run_pipeline-IsQuiet env source id).keeps_committed _)
        ((run_pipeline-IsQuiet env source id).keeps_outbox _)

  -- The import run never raises and hands over no message. It is skipped and changes no table, or it
  -- succeeds and leaves the commit to its caller, or it fails: then nothing that the pipeline wrote
  -- is kept, and the failed run, with the id that is reported, is recorded and committed over the
  -- tables of the last commit.
  pub run-Reported : (w : World) → Reported w (run env source w)
  unfolding run try_acquire_lock
  run-Reported w = run_locked-Reported (env.try_lock _ w.calls) _
