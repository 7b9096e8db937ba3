-- ===== src/Ingestion/Transform.antt =====
-- `_require` and `_transform` (domain/ingestion.py).
pub mod Laws
use growth_track.Models.{BrandPerformance, Doctor, RawRow, get_cell, SalesData}
use growth_track.Session.{Exc, Session, return, raise, external, ◌>>=◌, ◌>>◌, Env}
use growth_track.Ingestion.Source.{Decimal, finite, not_finite, Source}
use growth_track.Persistence.Teams
use growth_track.Prelude.{
  ℕ, String, Option, none, some, List, [], ◌∷◌, str_eq, if◌then◌else◌, strip, ℤ,
}

-- The assertion fails on None; a row from staging has every column.
abbrev pub asserted : Option String → Session String
asserted none = raise Exc.assertion_error
asserted (some value) = return value

abbrev pub require : String → RawRow → Session String
require key row = asserted (get_cell key row)

abbrev pub parsed : {A : Type 0} → Option A → Session A
parsed none = raise Exc.value_error
parsed (some a) = return a

-- The value of a Decimal; the validators let only finite ones through.
abbrev pub finite_value : Decimal → Session ℤ
finite_value (finite n) = return n
finite_value not_finite = raise Exc.data_error

-- `team_cache`.
abbrev pub TeamCache : Type 0
TeamCache = List (String × ℕ)

abbrev pub cached : String → TeamCache → Option ℕ
cached name [] = none
cached name ((known, team_id) ∷ cache) =
    let rest = cached name cache in if str_eq known name then some team_id else rest

module _ (env : Env) (source : Source) where
  abbrev pub required_decimal : String → RawRow → Session ℤ
  required_decimal key row = do
    text ← require key row
    number ← parsed (source.decimal_of text)
    finite_value number

  abbrev pub required_integer : String → RawRow → Session ℤ
  required_integer key row = do text ← require key row; parsed (source.integer_of text)

  abbrev pub required_date : String → RawRow → Session ℕ
  required_date key row = do text ← require key row; parsed (source.date_of text)

  abbrev pub cached_or_created : String → TeamCache → Option ℕ → Session (ℕ × TeamCache)
  cached_or_created name cache (some team_id) = return (team_id, cache)
  cached_or_created name cache none = do
    team_id ← Teams.get_or_create_by_name env name
    return (team_id, (name, team_id) ∷ cache)

  -- The id of the team and the cache with it.
  abbrev pub resolve_team : String → TeamCache → Session (ℕ × TeamCache)
  resolve_team name cache = cached_or_created name cache (cached name cache)

  unfoldable pub to_sales_data : ℕ → RawRow → Session SalesData
  to_sales_data team_id row = do
    id ← external env.uuid4
    date ← required_date "date" row
    sales_amount ← required_decimal "sales_amount" row
    achievement_pct ← required_decimal "achievement_pct" row
    growth_pct ← required_decimal "growth_pct" row
    return (record {
      id = id;
      date = date;
      team_id = team_id;
      sales_amount = sales_amount;
      achievement_pct = achievement_pct;
      growth_pct = growth_pct;
    })

  unfoldable pub transform_sales : TeamCache → List RawRow → Session (List SalesData)
  unfolding strip Teams.get_or_create_by_name to_sales_data
  transform_sales cache [] = return []
  transform_sales cache (row ∷ rows) = do
    team ← require "team" row
    (team_id, cache') ← resolve_team (strip team) cache
    sales_data ← to_sales_data team_id row
    rest ← transform_sales cache' rows
    return (sales_data ∷ rest)

  unfoldable pub to_brand_performance : RawRow → Session BrandPerformance
  to_brand_performance row = do
    id ← external env.uuid4
    external_brand_id ← require "external_brand_id" row
    brand_name ← require "brand_name" row
    sales ← required_decimal "sales" row
    rank ← required_integer "rank" row
    growth_pct ← required_decimal "growth_pct" row
    return (record {
      id = id;
      external_brand_id = external_brand_id;
      brand_name = brand_name;
      sales = sales;
      rank = rank;
      growth_pct = growth_pct;
    })

  unfoldable pub to_doctor : RawRow → Session Doctor
  to_doctor row = do
    id ← external env.uuid4
    external_doctor_id ← require "external_doctor_id" row
    name ← require "name" row
    territory ← require "territory" row
    priority ← required_integer "priority" row
    return (record {
      id = id;
      external_doctor_id = external_doctor_id;
      name = name;
      territory = territory;
      priority = priority;
    })

-- A loop that appends one item for each row.
abbrev pub transform_each : {A : Type 0} → (RawRow → Session A) → List RawRow → Session (List A)
transform_each f [] = return []
transform_each f (row ∷ rows) = do item ← f row; rest ← transform_each f rows; return (item ∷ rest)
