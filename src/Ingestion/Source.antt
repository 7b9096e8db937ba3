-- ===== src/Ingestion/Source.antt =====
-- What the import takes from outside: the files, read by the csv library, and the parsers of Python's
-- library. `none` is an
-- exception of theirs.
use growth_track.Models.{SourceRow}
use growth_track.Prelude.{ℕ, String, ◌≡◌, Option, none, List, ℤ}

-- `Decimal(text)`: a finite number, or an infinity or NaN.
pub data Decimal : Type 0 where
  finite : ℤ → Decimal
  not_finite : Decimal

-- What `csv.DictReader` makes of a file of the import directory: its rows, or an exception.
pub data File : Type 0 where
  missing : File
  unreadable : File
  lines : List SourceRow → File

pub record Source : Type 0 where
  -- the file with a name, as it is at a call
  pub file : ℕ → String → File
  -- `date.fromisoformat`, `Decimal` and `int` of a text
  pub date_of : String → Option ℕ
  pub decimal_of : String → Option Decimal
  pub integer_of : String → Option ℤ

-- Neither `Decimal("")` nor `int("")` is a number.
pub record RejectsEmpty (source : Source) : Type 0 where
  pub no_decimal : source.decimal_of "" ≡ none
  pub no_integer : source.integer_of "" ≡ none
