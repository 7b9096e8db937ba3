-- ===== src/Ingestion/Run.antt =====
-- `SourceSystemImportService.run` (domain/ingestion.py).
pub mod Laws
use growth_track.Session.{Session, return, external, ◌>>=◌, ◌>>◌, Env, Outcome, ok, raised}
use growth_track.Ingestion.Source.{Source}
use growth_track.Ingestion.Pipeline.{run_pipeline}
use growth_track.Persistence.ImportRuns
use growth_track.Prelude.{ℕ, Bool, true, false, Option, none, some}

pub data ImportOutcome : Type 0 where
  succeeded failed skipped : ImportOutcome

pub record ImportRunResult : Type 0 where
  pub outcome : ImportOutcome
  pub run_id : Option ℕ
  pub records_processed : ℕ
  pub records_rejected : ℕ

module _ (env : Env) (source : Source) where
  -- The `except` branch and what follows the pipeline.
  unfoldable pub finish_run : ℕ → ℕ → ℕ → Outcome (ℕ × ℕ) → Session ImportRunResult
  unfolding ImportRuns.mark_failed ImportRuns.mark_succeeded
  finish_run run_id correlation_id started_at (raised e) = do
    completed_at ← external env.now
    ImportRuns.mark_failed run_id correlation_id started_at completed_at
    return (record {
      outcome = ImportOutcome.failed;
      run_id = some run_id;
      records_processed = 0;
      records_rejected = 0;
    })
  finish_run run_id correlation_id started_at (ok (records_processed, records_rejected)) = do
    completed_at ← external env.now
    ImportRuns.mark_succeeded run_id completed_at records_processed records_rejected
    return (record {
      outcome = ImportOutcome.succeeded;
      run_id = some run_id;
      records_processed = records_processed;
      records_rejected = records_rejected;
    })

  abbrev pub catching : {A B : Type 0} → Session A → (Outcome A → Session B) → Session B
  catching m k w = let (o, w') = m w in k o w'

  unfoldable pub run_locked : Bool → Session ImportRunResult
  unfolding run_pipeline finish_run ImportRuns.start
  run_locked false = return (record {
    outcome = ImportOutcome.skipped;
    run_id = none;
    records_processed = 0;
    records_rejected = 0;
  })
  run_locked true = do
    correlation_id ← external env.uuid4
    started_at ← external env.now
    run_id ← ImportRuns.start env correlation_id started_at
    catching (run_pipeline env source run_id) (finish_run run_id correlation_id started_at)

  unfoldable pub run : Session ImportRunResult
  unfolding run_locked ImportRuns.try_acquire_lock
  run = do acquired ← ImportRuns.try_acquire_lock env; run_locked acquired
