-- ===== src/Models/Imports.antt =====
-- The imported sales figures and the import runs (domain/models.py), and the rows of the Source
-- System as the import reads them. A date is the number of its day.
use growth_track.Prelude.{ℕ, String, Bool, Option, none, List, [], ◌∷◌, str_eq, if◌then◌else◌, ℤ}

pub data ImportRunStatus : Type 0 where
  running succeeded failed : ImportRunStatus

pub record SalesData : Type 0 where
  pub id : ℕ
  pub date : ℕ
  pub team_id : ℕ
  pub sales_amount : ℤ
  pub achievement_pct : ℤ
  pub growth_pct : ℤ

pub record ImportRun : Type 0 where
  pub id : ℕ
  pub correlation_id : ℕ
  pub started_at : ℕ
  pub status : ImportRunStatus
  pub completed_at : Option ℕ
  pub records_processed : ℕ
  pub records_rejected : ℕ

-- The entity types of the import.
pub data EntityType : Type 0 where
  sales_data brand_performance doctors : EntityType

-- `dict[str, str | None]` with text keys.
abbrev pub RawRow : Type 0
RawRow = List (String × Option String)

-- `row.get(key)`: None for a missing key and for an empty cell at the end of a short line.
abbrev pub get_cell : String → RawRow → Option String
get_cell key [] = none
get_cell key ((name, value) ∷ row) =
    let rest = get_cell key row in if str_eq name key then value else rest

-- A line of a CSV file as `csv.DictReader` gives it; `has_rest` tells that it has more cells than
-- the header, which stand under the key None.
pub record SourceRow : Type 0 where
  pub cells : RawRow
  pub has_rest : Bool

-- What `fetch_batch` returns, with `batch.get(entity_type, [])` for each entity type.
abbrev pub Batch : Type 0
Batch = EntityType → List SourceRow

-- A row of a staging table.
pub record StagingRow : Type 0 where
  pub id : ℕ
  pub import_run_id : ℕ
  pub sequence : ℕ
  pub raw : RawRow
  pub is_valid : Option Bool
  pub rejection_reason : Option String
  pub created_at : ℕ
