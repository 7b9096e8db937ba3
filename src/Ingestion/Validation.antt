-- ===== src/Ingestion/Validation.antt =====
-- The validators of a row (domain/ingestion.py). The texts of the reasons are kept without the values
-- that they quote.
pub mod Laws
use growth_track.Models.{RawRow, get_cell, EntityType, SourceRow}
use growth_track.Session.{Exc, Outcome, ok, raised}
use growth_track.Ingestion.Source.{Decimal, finite, not_finite, Source}
use growth_track.Persistence.Staging.{Verdict}
use growth_track.Notifications.TemplateDirectory.{has_text}
use growth_track.Prelude.{
  ℕ, zero, suc, ◌+◌, String, Bool, true, false, not, Option, none, some, List, [], ◌∷◌, ltb, leb,
  if◌then◌else◌, is_none, any, is_empty, strip, is_negative, ℤ, pos, negsuc,
}

-- _MAX_POSTGRES_INTEGER.
abbrev pub max_postgres_integer : ℕ
max_postgres_integer = 2147483647

-- `row.get(key) or ""`.
abbrev pub text_or_empty : Option String → String
text_or_empty none = ""
text_or_empty (some s) = s

-- `not row.get(key)`.
abbrev pub is_blank : Option String → Bool
is_blank cell = is_empty (text_or_empty cell)

-- The first reason that applies.
infixr 30 ◌or_else◌
abbrev pub ◌or_else◌ : Option String → Option String → Option String
none or_else b = b
some a or_else b = some a

-- `if c: return reason`.
abbrev pub reason_if : Bool → String → Option String
reason_if true reason = some reason
reason_if false reason = none

abbrev pub decimal_reason : Option Decimal → Option String
decimal_reason none = some "is not a valid decimal"
decimal_reason (some not_finite) = some "must be a finite number"
decimal_reason (some (finite n)) = none

-- The same for an amount that may not be negative.
abbrev pub amount_reason : Option Decimal → Option String
amount_reason none = some "is not a valid decimal"
amount_reason (some not_finite) = some "must be a finite number"
amount_reason (some (finite n)) = reason_if (is_negative n) "must be >= 0"

abbrev pub positive_integer_reason : Option ℤ → Option String
positive_integer_reason none = some "is not a valid integer"
positive_integer_reason (some (negsuc n)) = some "must be a positive integer"
positive_integer_reason (some (pos n)) =
    reason_if (leb n 0) "must be a positive integer"
    or_else reason_if (ltb max_postgres_integer n) "exceeds the maximum allowed value"

module _ (source : Source) where
  abbrev pub decimal_cell : String → RawRow → Option Decimal
  decimal_cell key row = source.decimal_of (text_or_empty (get_cell key row))

  abbrev pub integer_cell : String → RawRow → Option ℤ
  integer_cell key row = source.integer_of (text_or_empty (get_cell key row))

  abbrev pub date_reason : Option String → Option String
  date_reason cell =
      reason_if (is_blank cell) "date is required"
      or_else reason_if (is_none (source.date_of (text_or_empty cell)))
          "is not a valid ISO 8601 date"

  unfoldable pub validate_sales_data_row : RawRow → Option String
  unfolding strip
  validate_sales_data_row row =
      date_reason (get_cell "date" row)
      or_else reason_if (is_empty (strip (text_or_empty (get_cell "team" row)))) "team is required"
      or_else amount_reason (decimal_cell "sales_amount" row)
      or_else decimal_reason (decimal_cell "achievement_pct" row)
      or_else decimal_reason (decimal_cell "growth_pct" row)

  unfoldable pub validate_brand_performance_row : RawRow → Option String
  validate_brand_performance_row row =
      reason_if (is_blank (get_cell "external_brand_id" row)) "external_brand_id is required"
      or_else reason_if (is_blank (get_cell "brand_name" row)) "brand_name is required"
      or_else amount_reason (decimal_cell "sales" row)
      or_else positive_integer_reason (integer_cell "rank" row)
      or_else decimal_reason (decimal_cell "growth_pct" row)

  unfoldable pub validate_doctors_row : RawRow → Option String
  validate_doctors_row row =
      reason_if (is_blank (get_cell "external_doctor_id" row)) "external_doctor_id is required"
      or_else reason_if (is_blank (get_cell "name" row)) "name is required"
      or_else reason_if (is_blank (get_cell "territory" row)) "territory is required"
      or_else positive_integer_reason (integer_cell "priority" row)

  -- _VALIDATORS.
  unfoldable pub validate : EntityType → RawRow → Option String
  unfolding validate_sales_data_row validate_brand_performance_row validate_doctors_row
  validate EntityType.sales_data row = validate_sales_data_row row
  validate EntityType.brand_performance row = validate_brand_performance_row row
  validate EntityType.doctors row = validate_doctors_row row

-- `sorted(set(original_row) - _DOCTORS_KNOWN_COLUMNS)`, without the key None.
abbrev pub is_known_column : String → Bool
is_known_column name = has_text name ("external_doctor_id" ∷ "name" ∷ "territory" ∷ "priority" ∷ [])

abbrev pub has_extra_columns : SourceRow → Bool
has_extra_columns row =
    any (λ (cell : String × Option String). not (is_known_column cell.0)) row.cells

-- The check of a doctor's row against the line as it was read. Joining the names of the columns, or
-- sorting them, raises a TypeError if one of them is None.
unfoldable pub check_columns : SourceRow → Outcome (Option String)
check_columns row =
    if row.has_rest
    then raised Exc.type_error
    else ok (reason_if (has_extra_columns row) "unexpected column(s)")

-- `original_rows[sequence]`.
abbrev pub row_at : ℕ → List SourceRow → Outcome SourceRow
row_at sequence [] = raised Exc.index_error
row_at zero (row ∷ rows) = ok row
row_at (suc sequence) (row ∷ rows) = row_at sequence rows

abbrev pub checked_columns : Outcome SourceRow → Outcome (Option String)
checked_columns (raised e) = raised e
checked_columns (ok row) = check_columns row

abbrev pub is_doctors : EntityType → Bool
is_doctors EntityType.doctors = true
is_doctors _ = false

module _ (source : Source) (entity_type : EntityType) (original_rows : List SourceRow) where
  abbrev pub columns_of_original : Bool → ℕ → Outcome (Option String)
  columns_of_original false sequence = ok none
  columns_of_original true sequence = checked_columns (row_at sequence original_rows)

  -- The reason for which a staged row is rejected, if there is one.
  unfoldable pub rejection_of : ℕ → RawRow → Outcome (Option String)
  unfolding validate check_columns
  rejection_of sequence row = elim (validate source entity_type row) [
    | some reason ↦ ok (some reason)
    | none ↦ columns_of_original (is_doctors entity_type) sequence
  ]

-- What the loop over the staged rows of one entity type collects.
pub record Checked : Type 0 where
  pub results : List Verdict
  pub valid_rows : List RawRow
  pub rejected : ℕ

abbrev pub add_row : ℕ → RawRow → Option String → Checked → Checked
add_row sequence row none c = record {
  results = (sequence, true, none) ∷ c.results;
  valid_rows = row ∷ c.valid_rows;
  rejected = c.rejected;
}
add_row sequence row (some reason) c = record {
  results = (sequence, false, some reason) ∷ c.results;
  valid_rows = c.valid_rows;
  rejected = c.rejected + 1;
}

abbrev pub add_outcome : ℕ → RawRow → Outcome (Option String) → Outcome Checked → Outcome Checked
add_outcome sequence row (raised e) rest = raised e
add_outcome sequence row (ok reason) (raised e) = raised e
add_outcome sequence row (ok reason) (ok c) = ok (add_row sequence row reason c)

module _ (source : Source) (entity_type : EntityType) (original_rows : List SourceRow) where
  unfoldable pub check_rows : List (ℕ × RawRow) → Outcome Checked
  unfolding rejection_of
  check_rows [] = ok (record { results = []; valid_rows = []; rejected = 0 })
  check_rows ((sequence, row) ∷ staged) =
      add_outcome sequence row (rejection_of source entity_type original_rows sequence row)
        (check_rows staged)
