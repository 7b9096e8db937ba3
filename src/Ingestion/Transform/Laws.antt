-- ===== src/Ingestion/Transform/Laws.antt =====
-- Rows that the validators have let through are parsed without an exception.
use growth_track.Models.{BrandPerformance, Doctor, RawRow, get_cell, SalesData, EntityType}
use growth_track.Session.{World, Env, ok}
use growth_track.Ingestion.Source.{finite, Source, RejectsEmpty}
use growth_track.Ingestion.Validation.{
  validate, validate_sales_data_row, validate_doctors_row, validate_brand_performance_row,
  text_or_empty, is_blank, reason_if, date_reason, positive_integer_reason, decimal_cell,
  integer_cell,
}
use growth_track.Ingestion.Validation.Laws.{
  or_else-none, reason_if-none, positive_integer_reason-none, decimal_reason-none,
  amount_reason-none, is_blank-false,
}
use growth_track.Ingestion.Transform.{
  required_decimal, required_integer, required_date, require, to_sales_data, to_brand_performance,
  to_doctor,
}
use growth_track.Persistence.Doctors.{is_integer}
use growth_track.Prelude.{
  ℕ, suc, String, ◌≡◌, refl, true, false, Option, none, some, arith, is_none, is_empty, strip, ℤ,
  pos,
}

is_none-false : {A : Type 0} (o : Option A) → is_none o ≡ false → (a : A) × (o ≡ some a)
is_none-false none h = cc
is_none-false (some a) h = (a, refl)

stripped_cell :
    (o : Option String) → is_empty (strip (text_or_empty o)) ≡ false → (s : String) × (o ≡ some s)
unfolding strip
stripped_cell none h = cc
stripped_cell (some s) h = (s, refl)

module _ (env : Env) (source : Source) (rejects : RejectsEmpty source) where
  -- A cell that the parser accepts, with "" for a missing cell, is not missing.
  parsed_cell :
      {A : Type 0} (parse : String → Option A) (cell : Option String) (a : A)
      → parse "" ≡ none
      → parse (text_or_empty cell) ≡ some a
      → (s : String) × (cell ≡ some s) × (parse s ≡ some a)
  parsed_cell parse none a h e = cc
  parsed_cell parse (some s) a h e = (s, refl, e)

  require_lem :
      (key : String) (row : RawRow) (w : World)
      → is_blank (get_cell key row) ≡ false
      → (s : String) × (require key row w ≡ (ok s, w))
  require_lem key row w h = let (s, e) = is_blank-false (get_cell key row) h in (s, rw e refl)

  required_integer_lem :
      (key : String) (row : RawRow) (w : World)
      → positive_integer_reason (integer_cell source key row) ≡ none
      → (n : ℤ) × (required_integer env source key row w ≡ (ok n, w)) × (is_integer n ≡ true)
  required_integer_lem key row w h =
      let (n, e, lo, hi) = positive_integer_reason-none (integer_cell source key row) h in
      let (s, c, p) =
        parsed_cell source.integer_of (get_cell key row) (pos n) rejects.no_integer e in
      (pos n, rw (c, p) refl, ground (arith, hi))

  required_decimal_lem :
      (key : String) (row : RawRow) (w : World) (n : ℤ)
      → decimal_cell source key row ≡ some (finite n)
      → required_decimal env source key row w ≡ (ok n, w)
  required_decimal_lem key row w n e =
      let (s, c, p) =
        parsed_cell source.decimal_of (get_cell key row) (finite n) rejects.no_decimal e in
      rw (c, p) refl

  pub to_doctor_lem :
      (row : RawRow) (w : World)
      → validate source EntityType.doctors row ≡ none
      → (d : Doctor) × (v : World) × (to_doctor env source row w ≡ (ok d, v))
        × (is_integer d.priority ≡ true)
        × (v.db ≡ w.db)
  unfolding to_doctor validate validate_doctors_row
  to_doctor_lem row w h =
      let (h1, r1) = or_else-none _ _ h in
      let (h2, r2) = or_else-none _ _ r1 in
      let (h3, h4) = or_else-none _ _ r2 in
      let v = record w { calls = suc w.calls } in
      let (a, e1) = require_lem "external_doctor_id" row v (reason_if-none _ _ h1) in
      let (b, e2) = require_lem "name" row v (reason_if-none _ _ h2) in
      let (c, e3) = require_lem "territory" row v (reason_if-none _ _ h3) in
      let (n, e4, range) = required_integer_lem "priority" row v h4 in
      (
        record {
          id = env.uuid4 w.calls;
          external_doctor_id = a;
          name = b;
          territory = c;
          priority = n;
        },
        v,
        rw (e1, e2, e3, e4) refl,
        range,
        refl,
      )

  pub to_brand_performance_lem :
      (row : RawRow) (w : World)
      → validate source EntityType.brand_performance row ≡ none
      → (b : BrandPerformance) × (v : World) × (to_brand_performance env source row w ≡ (ok b, v))
        × (is_integer b.rank ≡ true)
        × (v.db ≡ w.db)
  unfolding to_brand_performance validate validate_brand_performance_row
  to_brand_performance_lem row w h =
      let (h1, r1) = or_else-none _ _ h in
      let (h2, r2) = or_else-none _ _ r1 in
      let (h3, r3) = or_else-none _ _ r2 in
      let (h4, h5) = or_else-none _ _ r3 in
      let v = record w { calls = suc w.calls } in
      let (a, e1) = require_lem "external_brand_id" row v (reason_if-none _ _ h1) in
      let (b, e2) = require_lem "brand_name" row v (reason_if-none _ _ h2) in
      let (s, c, positive) = amount_reason-none (decimal_cell source "sales" row) h3 in
      let (n, e4, range) = required_integer_lem "rank" row v h4 in
      let (g, d) = decimal_reason-none (decimal_cell source "growth_pct" row) h5 in
      let e3 = required_decimal_lem "sales" row v s c in
      let e5 = required_decimal_lem "growth_pct" row v g d in
      (
        record {
          id = env.uuid4 w.calls;
          external_brand_id = a;
          brand_name = b;
          sales = s;
          rank = n;
          growth_pct = g;
        },
        v,
        rw (e1, e2, e3, e4, e5) refl,
        range,
        refl,
      )

  required_date_lem :
      (key : String) (row : RawRow) (w : World)
      → is_blank (get_cell key row) ≡ false
      → is_none (source.date_of (text_or_empty (get_cell key row))) ≡ false
      → (n : ℕ) × (required_date env source key row w ≡ (ok n, w))
  required_date_lem key row w h k =
      let (s, e) = is_blank-false (get_cell key row) h in
      let k' : is_none (source.date_of s) ≡ false = rw e at k in
      let (n, d) = is_none-false (source.date_of s) k' in (n, rw (e, d) refl)

  pub to_sales_data_lem :
      (team_id : ℕ) (row : RawRow) (w : World)
      → validate source EntityType.sales_data row ≡ none
      → (r : SalesData) × (to_sales_data env source team_id row w
          ≡ (ok r, record w { calls = suc w.calls }))
  unfolding to_sales_data validate validate_sales_data_row strip
  to_sales_data_lem team_id row w h =
      let (h1, r1) = or_else-none (date_reason source (get_cell "date" row)) _ h in
      let (h2, r2) =
        or_else-none
          (reason_if (is_empty (strip (text_or_empty (get_cell "team" row)))) "team is required") _
          r1 in
      let (h3, r3) = or_else-none _ _ r2 in
      let (h4, h5) = or_else-none _ _ r3 in
      let (b, d) =
        or_else-none (reason_if (is_blank (get_cell "date" row)) "date is required") _ h1 in
      let v = record w { calls = suc w.calls } in
      let (date, e1) =
        required_date_lem "date" row v (reason_if-none _ _ b) (reason_if-none _ _ d) in
      let (s, c, positive) = amount_reason-none (decimal_cell source "sales_amount" row) h3 in
      let (a, f) = decimal_reason-none (decimal_cell source "achievement_pct" row) h4 in
      let (g, k) = decimal_reason-none (decimal_cell source "growth_pct" row) h5 in
      let e3 = required_decimal_lem "sales_amount" row v s c in
      let e4 = required_decimal_lem "achievement_pct" row v a f in
      let e5 = required_decimal_lem "growth_pct" row v g k in
      (
        record {
          id = env.uuid4 w.calls;
          date = date;
          team_id = team_id;
          sales_amount = s;
          achievement_pct = a;
          growth_pct = g;
        },
        rw (e1, e3, e4, e5) refl,
      )

  pub team_lem :
      (row : RawRow) (w : World)
      → validate source EntityType.sales_data row ≡ none
      → (s : String) × (require "team" row w ≡ (ok s, w))
  unfolding validate validate_sales_data_row strip
  team_lem row w h =
      let (h1, r1) = or_else-none (date_reason source (get_cell "date" row)) _ h in
      let (h2, r2) = or_else-none _ _ r1 in
      let (s, e) = stripped_cell (get_cell "team" row) (reason_if-none _ _ h2) in (s, rw e refl)
