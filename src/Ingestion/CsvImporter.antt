-- ===== src/Ingestion/CsvImporter.antt =====
-- CsvFileSourceSystemImporter (adapters/source_system/csv_importer.py).
use growth_track.Models.{Batch, EntityType, SourceRow}
use growth_track.Ingestion.Source.{Source, File, missing, unreadable, lines}
use growth_track.Prelude.{ℕ, String, Option, none, some, List, []}

-- _FILENAMES.
abbrev pub filename : EntityType → String
filename EntityType.sales_data = "sales_data.csv"
filename EntityType.brand_performance = "brand_performance.csv"
filename EntityType.doctors = "doctors.csv"

-- `_read_csv`: a missing file has no rows; `none` is an exception of the csv library.
abbrev pub read_csv : File → Option (List SourceRow)
read_csv missing = some []
read_csv unreadable = none
read_csv (lines rows) = some rows

abbrev pub batch_of : List SourceRow → List SourceRow → List SourceRow → Batch
batch_of sales brands doctors EntityType.sales_data = sales
batch_of sales brands doctors EntityType.brand_performance = brands
batch_of sales brands doctors EntityType.doctors = doctors

abbrev pub all_read :
    Option (List SourceRow) → Option (List SourceRow) → Option (List SourceRow) → Option Batch
all_read (some sales) (some brands) (some doctors) = some (batch_of sales brands doctors)
all_read _ _ _ = none

unfoldable pub fetch_batch : Source → ℕ → Option Batch
fetch_batch source n =
    all_read (read_csv (source.file n (filename EntityType.sales_data)))
      (read_csv (source.file n (filename EntityType.brand_performance)))
      (read_csv (source.file n (filename EntityType.doctors)))
