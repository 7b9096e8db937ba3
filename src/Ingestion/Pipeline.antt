-- ===== src/Ingestion/Pipeline.antt =====
-- `_run_pipeline` (domain/ingestion.py).
pub mod Quiet
pub mod Loading
use growth_track.Models.{BrandPerformance, RawRow, Batch, SalesData, EntityType}
use growth_track.Session.{
  Exc, Session, return, raise, external, ◌>>=◌, ◌>>◌, Env, Outcome, rejected,
}
use growth_track.Ingestion.Source.{Source}
use growth_track.Ingestion.CsvImporter.{fetch_batch}
use growth_track.Ingestion.Validation.{Checked, check_rows}
use growth_track.Ingestion.Transform.{
  transform_sales, to_brand_performance, to_doctor, transform_each,
}
use growth_track.Persistence.Staging
use growth_track.Persistence.SalesData
use growth_track.Persistence.BrandPerformance
use growth_track.Persistence.Doctors
use growth_track.Prelude.{ℕ, ◌+◌, Option, none, some, List, [], length}

-- A value that was computed, or the exception of its computation.
abbrev pub lift : {A : Type 0} → Outcome A → Session A
lift o w = (o, w)

abbrev pub require_batch : Option Batch → Session Batch
require_batch none = raise Exc.source_error
require_batch (some batch) = return batch

module _ (env : Env) (source : Source) (run_id : ℕ) where
  unfoldable pub stage_all : Batch → Session (Unit {0})
  unfolding Staging.stage
  stage_all batch = do
    Staging.stage env run_id EntityType.sales_data (batch EntityType.sales_data)
    Staging.stage env run_id EntityType.brand_performance (batch EntityType.brand_performance)
    Staging.stage env run_id EntityType.doctors (batch EntityType.doctors)

  unfoldable pub validate_entity : Batch → EntityType → Session Checked
  unfolding Staging.fetch_staged Staging.mark_validated check_rows
  validate_entity batch entity_type = do
    staged ← Staging.fetch_staged run_id entity_type
    checked ← lift (check_rows source entity_type (batch entity_type) staged)
    Staging.mark_validated run_id entity_type checked.results
    return checked

  -- Parses the valid rows and upserts them; the result is the number of records.
  unfoldable pub load : List RawRow → List RawRow → List RawRow → Session ℕ
  unfolding transform_sales to_brand_performance to_doctor SalesData.upsert_many
      BrandPerformance.upsert_many Doctors.upsert_many
  load sales_rows brand_rows doctor_rows = do
    sales_data ← transform_sales env source [] sales_rows
    brand_performance ← transform_each (to_brand_performance env source) brand_rows
    doctors ← transform_each (to_doctor env source) doctor_rows
    SalesData.upsert_many env sales_data
    BrandPerformance.upsert_many env brand_performance
    Doctors.upsert_many env doctors
    return (length sales_data + length brand_performance + length doctors)

  -- The numbers of the records processed and rejected.
  unfoldable pub run_pipeline : Session (ℕ × ℕ)
  unfolding fetch_batch stage_all validate_entity load
  run_pipeline = do
    fetched ← external (fetch_batch source)
    batch ← require_batch fetched
    stage_all batch
    sales ← validate_entity batch EntityType.sales_data
    brands ← validate_entity batch EntityType.brand_performance
    doctors ← validate_entity batch EntityType.doctors
    records_processed ← load sales.valid_rows brands.valid_rows doctors.valid_rows
    return (records_processed, sales.rejected + brands.rejected + doctors.rejected)
