-- ===== src/Persistence/ImportRuns.antt =====
-- SqlAlchemyImportRunRepository (adapters/persistence/import_runs.py).
use growth_track.Models.{ImportRunStatus, ImportRun}
use growth_track.Session.{
  Session, return, query, external, write, ◌>>=◌, ◌>>◌, commit, rollback, Database, Env,
}
use growth_track.Prelude.{
  ℕ, max, Bool, true, false, Option, none, some, List, [], ◌∷◌, ◌==◌, if◌then◌else◌, rows_where,
  set_where, any,
}

-- NIGHTLY_IMPORT_LOCK_KEY (adapters/persistence/advisory_locks.py).
abbrev pub nightly_import_lock_key : ℕ
nightly_import_lock_key = 471028596

abbrev pub with_import_runs : Database → List ImportRun → Database
with_import_runs d rows = record d { import_runs = rows }

-- A row that was inserted without completed_at and counts.
abbrev pub new_run : ℕ → ℕ → ℕ → ImportRunStatus → Option ℕ → ImportRun
new_run run_id correlation_id started_at status completed_at = record {
  id = run_id;
  correlation_id = correlation_id;
  started_at = started_at;
  status = status;
  completed_at = completed_at;
  records_processed = 0;
  records_rejected = 0;
}

abbrev pub has_run_id : ℕ → ImportRun → Bool
has_run_id run_id r = r.id == run_id

-- ON CONFLICT (id) DO UPDATE SET status, completed_at.
abbrev pub put_failed : ImportRun → List ImportRun → List ImportRun
put_failed run rows =
    if any (has_run_id run.id) rows
    then set_where (has_run_id run.id)
        (λ r. record r { status = run.status; completed_at = run.completed_at }) rows
    else run ∷ rows

module _ (env : Env) where
  unfoldable pub try_acquire_lock : Session Bool
  try_acquire_lock = external (env.try_lock nightly_import_lock_key)

  unfoldable pub start : ℕ → ℕ → Session ℕ
  start correlation_id started_at = do
    run_id ← external env.uuid4
    write (λ d.
        with_import_runs d
          (new_run run_id correlation_id started_at ImportRunStatus.running none ∷ d.import_runs))
    return run_id

unfoldable pub mark_succeeded : ℕ → ℕ → ℕ → ℕ → Session (Unit {0})
mark_succeeded run_id completed_at records_processed records_rejected = write (λ d.
    with_import_runs d (
      set_where (has_run_id run_id)
        (λ r. record r {
          status = ImportRunStatus.succeeded;
          completed_at = some completed_at;
          records_processed = records_processed;
          records_rejected = records_rejected;
        })
        d.import_runs))

unfoldable pub mark_failed : ℕ → ℕ → ℕ → ℕ → Session (Unit {0})
mark_failed run_id correlation_id started_at completed_at = do
  rollback
  write (λ d. with_import_runs d (
      put_failed
        (new_run run_id correlation_id started_at ImportRunStatus.failed (some completed_at))
        d.import_runs))
  commit

abbrev pub is_succeeded : ImportRunStatus → Bool
is_succeeded ImportRunStatus.succeeded = true
is_succeeded _ = false

-- ORDER BY completed_at DESC LIMIT 1, where NULL comes first.
abbrev pub later_or_none : Option ℕ → Option ℕ → Option ℕ
later_or_none none o = none
later_or_none (some t) none = none
later_or_none (some t) (some u) = some (max t u)

abbrev pub latest_completed_at : List ImportRun → Option ℕ
latest_completed_at [] = none
latest_completed_at (r ∷ []) = r.completed_at
latest_completed_at (r ∷ s ∷ rows) = later_or_none r.completed_at (latest_completed_at (s ∷ rows))

unfoldable pub get_last_successful_completed_at : Session (Option ℕ)
get_last_successful_completed_at =
    query (λ d. latest_completed_at (rows_where (λ r. is_succeeded r.status) d.import_runs))
