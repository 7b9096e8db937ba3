-- ===== src/Effects/Import.antt =====
-- What the import pipeline writes (domain/ingestion.py).
use growth_track.Models.{
  BrandPerformance, Doctor, RawRow, Batch, SalesData, EntityType, SourceRow, StagingRow,
}
use growth_track.Session.{World, Session, return, external, ◌>>=◌, Env, Outcome, ok, raised}
use growth_track.Effects.{
  Relation, Allows, Obeys, effects, bind-Obeys, return-Obeys, raise-Obeys, query-Obeys,
  external-Obeys,
}
use growth_track.Ingestion.Source.{Decimal, finite, not_finite, Source}
use growth_track.Ingestion.Transform.{
  asserted, parsed, finite_value, TeamCache, cached_or_created, to_sales_data, transform_sales,
  to_brand_performance, to_doctor, transform_each,
}
use growth_track.Ingestion.Pipeline.{
  lift, require_batch, stage_all, validate_entity, load, run_pipeline,
}
use growth_track.Persistence.Staging
use growth_track.Persistence.Teams
use growth_track.Persistence.SalesData
use growth_track.Persistence.BrandPerformance
use growth_track.Persistence.Doctors
use growth_track.Persistence.Upsert.{with_new_ids}
use growth_track.Prelude.{ℕ, String, Option, none, some, List, [], ◌∷◌}

module _ (R : Relation) (allowed : Allows R) where
  lift-Obeys : {A : Type 0} (o : Outcome A) → Obeys R (lift o)
  lift-Obeys (ok a) = return-Obeys R allowed a
  lift-Obeys (raised e) = raise-Obeys R allowed e

  asserted-Obeys : (o : Option String) → Obeys R (asserted o)
  asserted-Obeys none = raise-Obeys R allowed _
  asserted-Obeys (some s) = return-Obeys R allowed s

  parsed-Obeys : {A : Type 0} (o : Option A) → Obeys R (parsed o)
  parsed-Obeys none = raise-Obeys R allowed _
  parsed-Obeys (some a) = return-Obeys R allowed a

  finite_value-Obeys : (d : Decimal) → Obeys R (finite_value d)
  finite_value-Obeys (finite n) = return-Obeys R allowed n
  finite_value-Obeys not_finite = raise-Obeys R allowed _

  -- The writes of the tables that the import fills.
  staged :
      (e : EntityType) (rows : List StagingRow) (w : World)
      → R w (record w { db = Staging.with_staging_table e rows w.db })
  staged EntityType.sales_data rows w = allowed.staging_sales_data rows w
  staged EntityType.brand_performance rows w = allowed.staging_brand_performance rows w
  staged EntityType.doctors rows w = allowed.staging_doctors rows w

  module _ (env : Env) (source : Source) where
    stage_from-Obeys :
        (run_id : ℕ) (e : EntityType) (now sequence : ℕ) (rows : List SourceRow)
        → Obeys R (Staging.stage_from env run_id e now sequence rows)
    unfolding Staging.stage_from
    stage_from-Obeys run_id e now sequence [] = return-Obeys R allowed tt
    stage_from-Obeys run_id e now sequence (row ∷ rows) =
        let ih : (k : ℕ) → Obeys R (Staging.stage_from env run_id e now k rows) =
          λ k. stage_from-Obeys run_id e now k rows in
        search (effects, ih, staged) depth 12

    stage-Obeys :
        (run_id : ℕ) (e : EntityType) (rows : List SourceRow)
        → Obeys R (Staging.stage env run_id e rows)
    unfolding Staging.stage
    stage-Obeys run_id e rows = search (effects, stage_from-Obeys)

    ruleset cells = (asserted-Obeys, parsed-Obeys, finite_value-Obeys)

    scalar_one-Obeys : {A : Type 0} (xs : List A) → Obeys R (Teams.scalar_one xs)
    scalar_one-Obeys [] = raise-Obeys R allowed _
    scalar_one-Obeys (a ∷ []) = return-Obeys R allowed a
    scalar_one-Obeys (a ∷ b ∷ xs) = raise-Obeys R allowed _

    get_or_create_by_name-Obeys : (name : String) → Obeys R (Teams.get_or_create_by_name env name)
    unfolding Teams.get_or_create_by_name
    get_or_create_by_name-Obeys name = search (effects, scalar_one-Obeys, allowed.teams) depth 20

    cached_or_created-Obeys :
        (name : String) (cache : TeamCache) (found : Option ℕ)
        → Obeys R (cached_or_created env source name cache found)
    cached_or_created-Obeys name cache (some team_id) = return-Obeys R allowed _
    cached_or_created-Obeys name cache none = search (effects, get_or_create_by_name-Obeys)

    to_sales_data-Obeys :
        (team_id : ℕ) (row : RawRow) → Obeys R (to_sales_data env source team_id row)
    unfolding to_sales_data
    to_sales_data-Obeys team_id row = search (effects, cells) depth 30

    transform_sales-Obeys :
        (cache : TeamCache) (rows : List RawRow) → Obeys R (transform_sales env source cache rows)
    unfolding transform_sales
    transform_sales-Obeys cache [] = return-Obeys R allowed []
    transform_sales-Obeys cache (row ∷ rows) =
        let ih : (c : TeamCache) → Obeys R (transform_sales env source c rows) =
          λ c. transform_sales-Obeys c rows in
        search (effects, cells, cached_or_created-Obeys, to_sales_data-Obeys, ih) depth 12

    to_brand_performance-Obeys : (row : RawRow) → Obeys R (to_brand_performance env source row)
    unfolding to_brand_performance
    to_brand_performance-Obeys row = search (effects, cells) depth 30

    to_doctor-Obeys : (row : RawRow) → Obeys R (to_doctor env source row)
    unfolding to_doctor
    to_doctor-Obeys row = search (effects, cells) depth 30

    transform_each-Obeys :
        {A : Type 0} (f : RawRow → Session A) (rows : List RawRow)
        → ((row : RawRow) → Obeys R (f row))
        → Obeys R (transform_each f rows)
    transform_each-Obeys f [] h = return-Obeys R allowed []
    transform_each-Obeys f (row ∷ rows) h =
        bind-Obeys R allowed (f row)
          (λ item. transform_each f rows >>= λ rest. return (item ∷ rest)) (h row)
          (λ item.
            bind-Obeys R allowed (transform_each f rows) (λ rest. return (item ∷ rest))
              (transform_each-Obeys f rows h) (λ rest. return-Obeys R allowed (item ∷ rest)))

    fetch_staged-Obeys : (run_id : ℕ) (e : EntityType) → Obeys R (Staging.fetch_staged run_id e)
    unfolding Staging.fetch_staged
    fetch_staged-Obeys run_id e = query-Obeys R allowed _

    mark_validated-Obeys :
        (run_id : ℕ) (e : EntityType) (verdicts : List Staging.Verdict)
        → Obeys R (Staging.mark_validated run_id e verdicts)
    unfolding Staging.mark_validated
    mark_validated-Obeys run_id e verdicts = search (effects, staged)

    stage_all-Obeys : (run_id : ℕ) (batch : Batch) → Obeys R (stage_all env source run_id batch)
    unfolding stage_all
    stage_all-Obeys run_id batch = search (effects, stage-Obeys)

    validate_entity-Obeys :
        (run_id : ℕ) (batch : Batch) (e : EntityType)
        → Obeys R (validate_entity env source run_id batch e)
    unfolding validate_entity
    validate_entity-Obeys run_id batch e = search (effects, lift-Obeys, staged) depth 20

    with_new_ids-Obeys :
        {A : Type 0} (set_id : ℕ → A → A) (rows : List A) → Obeys R (with_new_ids env set_id rows)
    with_new_ids-Obeys set_id [] = return-Obeys R allowed []
    with_new_ids-Obeys set_id (row ∷ rows) =
        bind-Obeys R allowed (external env.uuid4)
          (λ id. with_new_ids env set_id rows >>= λ rest. return (set_id id row ∷ rest))
          (external-Obeys R allowed env.uuid4)
          (λ id.
            bind-Obeys R allowed (with_new_ids env set_id rows)
              (λ rest. return (set_id id row ∷ rest)) (with_new_ids-Obeys set_id rows)
              (λ rest. return-Obeys R allowed (set_id id row ∷ rest)))

    ruleset upserts = (effects, with_new_ids-Obeys)

    upsert_sales-Obeys : (rows : List SalesData) → Obeys R (SalesData.upsert_many env rows)
    unfolding SalesData.upsert_many
    upsert_sales-Obeys [] = return-Obeys R allowed tt
    upsert_sales-Obeys (row ∷ rows) = search (upserts, allowed.sales_data) depth 20

    upsert_brands-Obeys :
        (rows : List BrandPerformance) → Obeys R (BrandPerformance.upsert_many env rows)
    unfolding BrandPerformance.upsert_many
    upsert_brands-Obeys [] = return-Obeys R allowed tt
    upsert_brands-Obeys (row ∷ rows) = search (upserts, allowed.brand_performance) depth 20

    upsert_doctors-Obeys : (rows : List Doctor) → Obeys R (Doctors.upsert_many env rows)
    unfolding Doctors.upsert_many
    upsert_doctors-Obeys [] = return-Obeys R allowed tt
    upsert_doctors-Obeys (row ∷ rows) = search (upserts, allowed.doctors) depth 20

    load-Obeys :
        (run_id : ℕ) (sales_rows brand_rows doctor_rows : List RawRow)
        → Obeys R (load env source run_id sales_rows brand_rows doctor_rows)
    unfolding load
    load-Obeys run_id sales_rows brand_rows doctor_rows =
        search
          (
            effects, transform_sales-Obeys, transform_each-Obeys, to_brand_performance-Obeys,
            to_doctor-Obeys, upsert_sales-Obeys, upsert_brands-Obeys, upsert_doctors-Obeys,
          )
          depth 30

    require_batch-Obeys : (o : Option Batch) → Obeys R (require_batch o)
    require_batch-Obeys none = raise-Obeys R allowed _
    require_batch-Obeys (some batch) = return-Obeys R allowed batch

    pub run_pipeline-Obeys : (run_id : ℕ) → Obeys R (run_pipeline env source run_id)
    unfolding run_pipeline
    run_pipeline-Obeys run_id =
        search (effects, require_batch-Obeys, stage_all-Obeys, validate_entity-Obeys, load-Obeys)
          depth 30
