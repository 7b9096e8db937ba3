-- ===== src/Persistence/Staging.antt =====
-- SqlAlchemyStagingRepository (adapters/persistence/staging.py). `raw` holds the raw columns of a
-- staging row under the names of the CSV file, as _FIELD_MAPS pairs them.
use growth_track.Models.{RawRow, get_cell, EntityType, SourceRow, StagingRow}
use growth_track.Session.{Session, return, query, external, write, ◌>>=◌, ◌>>◌, Database, Env}
use growth_track.Prelude.{
  ℕ, ◌+◌, compare, String, Bool, ◌&&◌, Option, none, some, List, [], ◌∷◌, map, ◌==◌, rows_where,
  set_where, sorted,
}

-- _FIELD_MAPS.
abbrev pub columns : EntityType → List String
columns EntityType.sales_data =
    "date" ∷ "team" ∷ "sales_amount" ∷ "achievement_pct" ∷ "growth_pct" ∷ []
columns EntityType.brand_performance =
    "external_brand_id" ∷ "brand_name" ∷ "sales" ∷ "rank" ∷ "growth_pct" ∷ []
columns EntityType.doctors = "external_doctor_id" ∷ "name" ∷ "territory" ∷ "priority" ∷ []

-- _model_for: the table of an entity type.
abbrev pub staging_table : EntityType → Database → List StagingRow
staging_table EntityType.sales_data d = d.staging_sales_data
staging_table EntityType.brand_performance d = d.staging_brand_performance
staging_table EntityType.doctors d = d.staging_doctors

abbrev pub with_staging_table : EntityType → List StagingRow → Database → Database
with_staging_table EntityType.sales_data rows d = record d { staging_sales_data = rows }
with_staging_table EntityType.brand_performance rows d = record d {
  staging_brand_performance = rows;
}
with_staging_table EntityType.doctors rows d = record d { staging_doctors = rows }

abbrev pub raw_columns : EntityType → RawRow → RawRow
raw_columns entity_type row = map (λ column. (column, get_cell column row)) (columns entity_type)

module _ (env : Env) (import_run_id : ℕ) (entity_type : EntityType) where
  unfoldable pub stage_from : ℕ → ℕ → List SourceRow → Session (Unit {0})
  stage_from now sequence [] = return tt
  stage_from now sequence (row ∷ rows) = do
    id ← external env.uuid4
    write (λ d.
        with_staging_table entity_type
          (record {
            id = id;
            import_run_id = import_run_id;
            sequence = sequence;
            raw = raw_columns entity_type row.cells;
            is_valid = none;
            rejection_reason = none;
            created_at = now;
          }
            ∷ staging_table entity_type d)
          d)
    stage_from now (sequence + 1) rows

  unfoldable pub stage : List SourceRow → Session (Unit {0})
  unfolding stage_from
  stage raw_rows = do now ← external env.now; stage_from now 0 raw_rows

abbrev pub of_run : ℕ → StagingRow → Bool
of_run import_run_id r = r.import_run_id == import_run_id

unfoldable pub fetch_staged : ℕ → EntityType → Session (List (ℕ × RawRow))
fetch_staged import_run_id entity_type = query (λ d.
    map (λ r. (r.sequence, r.raw))
      (sorted (λ r s. compare r.sequence s.sequence)
        (rows_where (of_run import_run_id) (staging_table entity_type d))))

-- `(sequence, is_valid, rejection_reason)`.
abbrev pub Verdict : Type 0
Verdict = ℕ × Bool × Option String

abbrev pub marked : Verdict → StagingRow → StagingRow
marked (sequence, is_valid, rejection_reason) r = record r {
  is_valid = some is_valid;
  rejection_reason = rejection_reason;
}

abbrev pub mark_one : ℕ → Verdict → List StagingRow → List StagingRow
mark_one import_run_id verdict rows =
    set_where (λ r. of_run import_run_id r && r.sequence == verdict.0) (marked verdict) rows

abbrev pub mark_all : ℕ → List Verdict → List StagingRow → List StagingRow
mark_all import_run_id [] rows = rows
mark_all import_run_id (verdict ∷ verdicts) rows =
    mark_all import_run_id verdicts (mark_one import_run_id verdict rows)

unfoldable pub mark_validated : ℕ → EntityType → List Verdict → Session (Unit {0})
mark_validated import_run_id entity_type results = write (λ d.
    with_staging_table entity_type (mark_all import_run_id results (staging_table entity_type d)) d)
