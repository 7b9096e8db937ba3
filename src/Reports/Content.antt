-- ===== src/Reports/Content.antt =====
-- DailyReportContentService (domain/daily_report.py).
use Prim.Native.String.{◌++◌ as concat}
use growth_track.Models.{User}
use growth_track.Session.{Session, return, ◌>>=◌, Env}
use growth_track.Reports.{Context}
use growth_track.Reports.Dashboard.{Ratio, TeamPerformance, name_or, get_summary, get_brand_summary}
use growth_track.Reports.Formatting.{format_cr_bdt, format_percent}
use growth_track.Metrics.{BrandEntry, DoctorEntry, rank_doctors_for_territory}
use growth_track.Persistence.Teams
use growth_track.Persistence.Doctors
use growth_track.Prelude.{
  ℕ, String, Option, none, some, List, [], ◌∷◌, map, if◌then◌else◌, dict_get, is_empty, take,
}

abbrev pub no_data : String
no_data = "No data available"

abbrev pub unassigned_territory : String
unassigned_territory = "Unassigned"

pub record CompanyWideReportContent : Type 0 where
  pub ytd_sales : String
  pub mtd_sales : String
  pub achievement_pct : String
  pub growth_pct : String
  pub team_performance : String
  pub top_brand : String
  pub focus_brand : String

-- `"; ".join(texts)`.
abbrev pub join : List String → String
join [] = ""
join (s ∷ []) = s
join (s ∷ t ∷ rest) = concat s (concat "; " (join (t ∷ rest)))

-- `text or _NO_DATA`.
abbrev pub or_no_data : String → String
or_no_data s = if is_empty s then no_data else s

abbrev pub first_brand : List BrandEntry → String
first_brand [] = no_data
first_brand (b ∷ rest) = b.brand_name

-- `DoctorVisitListService.get_visit_list` (domain/metrics.py).
unfoldable pub get_visit_list : Env → String → Session (List DoctorEntry)
unfolding Doctors.list_all rank_doctors_for_territory
get_visit_list env territory = do
  rows ← Doctors.list_all
  return (rank_doctors_for_territory env.lower rows territory)

abbrev pub territory_of : List (ℕ × String) → Option ℕ → String
territory_of team_names none = unassigned_territory
territory_of team_names (some team_id) =
    name_or (dict_get (λ (t : ℕ × String). t.0) team_id team_names) unassigned_territory

-- The territories by the ids of the recipients.
unfoldable pub resolve_territories : List User → Session (List (ℕ × String))
unfolding Teams.list_all
resolve_territories recipients = do
  team_names ← Teams.list_all
  return (map (λ (r : User). (r.id, territory_of team_names r.team_id)) recipients)

module _ (context : Context) where
  abbrev pub percent_or_no_data : Option Ratio → String
  percent_or_no_data none = no_data
  percent_or_no_data (some pct) = format_percent context pct

  abbrev pub team_line : TeamPerformance → String
  team_line tp = concat tp.team_name (
      concat " : "
        (format_percent context (record { numerator = tp.achievement_pct; denominator_pred = 0 })))

  unfoldable pub build_company_wide_content : ℕ → ℕ → Session CompanyWideReportContent
  unfolding get_summary get_brand_summary format_cr_bdt format_percent
  build_company_wide_content today now = do
    summary ← get_summary context today now
    brands ← get_brand_summary context
    return (record {
      ytd_sales = format_cr_bdt context summary.ytd_sales;
      mtd_sales = format_cr_bdt context summary.mtd_sales;
      achievement_pct = percent_or_no_data summary.achievement_pct;
      growth_pct = percent_or_no_data summary.growth_pct;
      team_performance = or_no_data (join (map team_line summary.team_performance));
      top_brand = first_brand brands.top_brands;
      focus_brand = first_brand brands.focus_brands;
    })

  abbrev pub doctor_names : List DoctorEntry → String
  doctor_names [] = no_data
  doctor_names (row ∷ rows) =
      join
        (map (λ (r : DoctorEntry). r.doctor_name) (take context.report_top_doctors_n (row ∷ rows)))

  unfoldable pub build_doctor_section : Env → String → Session String
  unfolding get_visit_list
  build_doctor_section env territory = do
    rows ← get_visit_list env territory
    return (doctor_names rows)
