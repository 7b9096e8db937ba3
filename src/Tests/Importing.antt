-- ===== src/Tests/Importing.antt =====
-- The import's theorems on a small batch.
use growth_track.Tests.Samples.{sample_env, sample_world}
use growth_track.Ingestion.Source.{Source, RejectsEmpty, missing, finite}
use growth_track.Ingestion.Validation.{
  Checked, check_rows, validate, validate_sales_data_row, validate_brand_performance_row,
  validate_doctors_row, rejection_of, check_columns,
}
use growth_track.Ingestion.Validation.Laws.{Accounted, check_rows-accounts}
use growth_track.Ingestion.Pipeline.Loading.{Loaded, load-validated}
use growth_track.Ingestion.Run.{run}
use growth_track.Ingestion.Run.Laws.{Reported, run-Reported}
use growth_track.Persistence.SalesData.{same_team_and_date, upsert_many}
use growth_track.Persistence.Upsert.Lookup.{lookup, lookup_last}
use growth_track.Persistence.Upsert.Tables.{figures, upsert_sales_last}
use growth_track.Persistence.Teams.Laws.{NamesUnique}
use growth_track.Session.{World, ok}
use growth_track.Models.{RawRow, SalesData, EntityType, SourceRow}
use growth_track.Prelude.{
  ◌≡◌, refl, true, false, none, some, List, [], ◌∷◌, arith, str_eq, if◌then◌else◌, first_some, pos,
}

abbrev sales_row : RawRow
sales_row =
    ("date", some "2026-01-05")
    ∷ ("team", some "Khulna")
    ∷ ("sales_amount", some "10")
    ∷ ("achievement_pct", some "10")
    ∷ ("growth_pct", some "10")
    ∷ []

abbrev brand_row : RawRow
brand_row =
    ("external_brand_id", some "b1")
    ∷ ("brand_name", some "Brand")
    ∷ ("sales", some "10")
    ∷ ("rank", some "10")
    ∷ ("growth_pct", some "10")
    ∷ []

abbrev doctor_row : RawRow
doctor_row =
    ("external_doctor_id", some "d1")
    ∷ ("name", some "Rahim")
    ∷ ("territory", some "Khulna")
    ∷ ("priority", some "10")
    ∷ []

abbrev bad_row : RawRow
bad_row =
    ("external_doctor_id", some "d2")
    ∷ ("name", none)
    ∷ ("territory", some "Khulna")
    ∷ ("priority", some "10")
    ∷ []

-- The only number is 10, and the only date is the fifth.
abbrev source : Source
source = record {
  file = λ n name. missing;
  date_of = λ s. if str_eq s "2026-01-05" then some 5 else none;
  decimal_of = λ s. if str_eq s "10" then some (finite (pos 10)) else none;
  integer_of = λ s. if str_eq s "10" then some (pos 10) else none;
}

source-RejectsEmpty : RejectsEmpty source
source-RejectsEmpty = record { no_decimal = refl; no_integer = refl }

abbrev doctor_lines : List SourceRow
doctor_lines =
    record { cells = doctor_row; has_rest = false }
    ∷ record { cells = bad_row; has_rest = false }
    ∷ []

abbrev checked : Checked
checked = record {
  results = (0, true, none) ∷ (1, false, some "name is required") ∷ [];
  valid_rows = doctor_row ∷ [];
  rejected = 1;
}

check_rows-accounts_example :
    Accounted source EntityType.doctors doctor_lines ((0, doctor_row) ∷ (1, bad_row) ∷ []) checked
unfolding check_rows rejection_of validate validate_doctors_row check_columns
check_rows-accounts_example =
    check_rows-accounts source EntityType.doctors doctor_lines ((0, doctor_row) ∷ (1, bad_row) ∷ [])
      checked refl

sample-NamesUnique : NamesUnique sample_world.db.teams
sample-NamesUnique name = ground arith

load-validated_example :
    Loaded sample_env source 7 (sales_row ∷ []) (brand_row ∷ []) (doctor_row ∷ []) sample_world
unfolding validate validate_sales_data_row validate_brand_performance_row validate_doctors_row
load-validated_example =
    load-validated sample_env source source-RejectsEmpty 7 (sales_row ∷ []) (brand_row ∷ [])
      (doctor_row ∷ []) sample_world (refl, tt) (refl, tt) (refl, tt) sample-NamesUnique

run-Reported_example : Reported sample_world (run sample_env source sample_world)
run-Reported_example = run-Reported sample_env source sample_world

abbrev january : SalesData
january = record {
  id = 0;
  date = 5;
  team_id = 10;
  sales_amount = pos 7;
  achievement_pct = pos 40;
  growth_pct = pos 1;
}

upsert_sales_last_example :
    (v : World) × (upsert_many sample_env
        (january ∷ record january { sales_amount = pos 8 } ∷ [])
        sample_world
      ≡ (ok tt, v))
    × ((k : SalesData)
        → lookup figures (same_team_and_date k) v.db.sales_data
          ≡ first_some
              (lookup_last figures
                (same_team_and_date k)
                (january ∷ record january { sales_amount = pos 8 } ∷ []))
              (lookup figures (same_team_and_date k) sample_world.db.sales_data))
upsert_sales_last_example =
    upsert_sales_last sample_env (january ∷ record january { sales_amount = pos 8 } ∷ [])
      sample_world
