-- ===== src/Reports/Dashboard.antt =====
-- DashboardMetricsService and BrandPerformanceService (domain/metrics.py). A quotient of Decimals is
-- kept as a fraction, where Python rounds to 28 digits.
use growth_track.Models.{SalesData}
use growth_track.Session.{Session, return, ◌>>=◌}
use growth_track.Reports.{Context}
use growth_track.Metrics.{BrandPerformanceSummary, classify_brands}
use growth_track.Persistence.SalesData
use growth_track.Persistence.Teams
use growth_track.Persistence.ImportRuns
use growth_track.Persistence.BrandPerformance
use growth_track.Prelude.{
  ℕ, zero, suc, ◌+◌, max, String, Bool, true, Option, none, some, List, [], ◌∷◌, map, ltb, ◌==◌,
  rows_where, dict_get, sorted, ◌+ℤ◌, minus, ◌*ℤ◌, compare_text, ℤ, pos, negsuc,
}

pub record TeamPerformance : Type 0 where
  pub team_id : ℕ
  pub team_name : String
  pub achievement_pct : ℤ

-- A fraction of the common unit.
pub record Ratio : Type 0 where
  pub numerator : ℤ
  pub denominator_pred : ℕ

pub record DashboardSummary : Type 0 where
  pub today_sales : ℤ
  pub ytd_sales : ℤ
  pub mtd_sales : ℤ
  pub achievement_pct : Option Ratio
  pub growth_pct : Option Ratio
  pub team_performance : List TeamPerformance
  pub data_as_of : Option ℕ
  pub is_stale : Bool

abbrev pub negate : ℤ → ℤ
negate (pos n) = minus n
negate (negsuc n) = pos (n + 1)

-- `a / b`, or None if b is 0.
abbrev pub quotient : ℤ → ℤ → Option Ratio
quotient a (pos zero) = none
quotient a (pos (suc b)) = some (record { numerator = a; denominator_pred = b })
quotient a (negsuc b) = some (record { numerator = negate a; denominator_pred = b })

-- `max(row.date for row in rows)`, from a first date.
abbrev pub latest_date : ℕ → List SalesData → ℕ
latest_date day [] = day
latest_date day (r ∷ rows) = latest_date (max day r.date) rows

-- `sum(f(row) * row.sales_amount for row in rows)`.
abbrev pub weighted : (SalesData → ℤ) → List SalesData → ℤ
weighted f [] = pos 0
weighted f (r ∷ rows) = (f r *ℤ r.sales_amount) +ℤ weighted f rows

unfoldable pub aggregate_company_wide : List SalesData → Option Ratio × Option Ratio
aggregate_company_wide [] = (none, none)
aggregate_company_wide (r ∷ rows) =
    let latest = latest_date r.date rows in
    let current_rows = rows_where (λ s. s.date == latest) (r ∷ rows) in
    let total_sales = SalesData.sum_amounts current_rows in
    (
      quotient (weighted (λ s. s.achievement_pct) current_rows) total_sales,
      quotient (weighted (λ s. s.growth_pct) current_rows) total_sales,
    )

-- `team_names.get(team_id, team_id.hex)`.
abbrev pub name_or : Option (ℕ × String) → String → String
name_or none default = default
name_or (some (team_id, name)) default = name

-- `data_as_of is None or (now - data_as_of) > stale_after`.
unfoldable pub is_stale_at : ℕ → ℕ → Option ℕ → Bool
is_stale_at stale_after now none = true
is_stale_at stale_after now (some data_as_of) = ltb (data_as_of + stale_after) now

module _ (context : Context) where
  abbrev pub to_performance : List (ℕ × String) → SalesData → TeamPerformance
  to_performance team_names row = record {
    team_id = row.team_id;
    team_name =
        name_or (dict_get (λ (t : ℕ × String). t.0) row.team_id team_names)
          (context.hex row.team_id);
    achievement_pct = row.achievement_pct;
  }

  unfoldable pub get_summary : ℕ → ℕ → Session DashboardSummary
  unfolding SalesData.sum_amount_in_range SalesData.latest_per_team Teams.list_all
      ImportRuns.get_last_successful_completed_at aggregate_company_wide is_stale_at
  get_summary today now = do
    today_sales ← SalesData.sum_amount_in_range today today
    ytd_sales ← SalesData.sum_amount_in_range (context.year_start today) today
    mtd_sales ← SalesData.sum_amount_in_range (context.month_start today) today
    latest_rows ← SalesData.latest_per_team
    team_names ← Teams.list_all
    let team_performance =
        sorted (λ (t : TeamPerformance) (u : TeamPerformance). compare_text t.team_name u.team_name)
          (map (to_performance team_names) latest_rows)
    let (achievement_pct, growth_pct) = aggregate_company_wide latest_rows
    data_as_of ← ImportRuns.get_last_successful_completed_at
    return (record {
      today_sales = today_sales;
      ytd_sales = ytd_sales;
      mtd_sales = mtd_sales;
      achievement_pct = achievement_pct;
      growth_pct = growth_pct;
      team_performance = team_performance;
      data_as_of = data_as_of;
      is_stale = is_stale_at context.stale_after now data_as_of;
    })

  -- `BrandPerformanceService.get_summary`.
  unfoldable pub get_brand_summary : Session BrandPerformanceSummary
  unfolding BrandPerformance.list_all classify_brands
  get_brand_summary = do
    rows ← BrandPerformance.list_all
    return (
        classify_brands rows context.brand_top_n context.brand_low_performing_n
          context.brand_focus_n)
