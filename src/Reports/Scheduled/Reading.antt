-- ===== src/Reports/Scheduled/Reading.antt =====
-- The parts of run_daily_report that only read (domain/scheduled_notifications.py).
use growth_track.Models.{User, ContentVariables}
use growth_track.Session.{scalar_one_or_none, Env}
use growth_track.SessionLaws.{
  IsReading, reading, return-IsReading, raise-IsReading, query-IsReading,
}
use growth_track.Reports.{Context}
use growth_track.Reports.Content.{
  CompanyWideReportContent, build_company_wide_content, resolve_territories, build_doctor_section,
  get_visit_list,
}
use growth_track.Reports.Dashboard.{get_summary, get_brand_summary}
use growth_track.Reports.Scheduled.{Sections, cached_or_built, recipient_variables, all_variables}
use growth_track.Persistence.Users
use growth_track.Persistence.Templates
use growth_track.Persistence.Consents
use growth_track.Persistence.Teams
use growth_track.Persistence.Doctors
use growth_track.Persistence.SalesData
use growth_track.Persistence.ImportRuns
use growth_track.Persistence.BrandPerformance
use growth_track.Notifications.Resolution.{resolve, expand_teams, expand_lists}
use growth_track.Notifications.Compose.{require_variables}
use growth_track.Prelude.{ℕ, String, Option, none, some, List, [], ◌∷◌}

scalar_one_or_none-IsReading : {A : Type 0} (xs : List A) → IsReading (scalar_one_or_none xs)
scalar_one_or_none-IsReading [] = return-IsReading none
scalar_one_or_none-IsReading (a ∷ []) = return-IsReading (some a)
scalar_one_or_none-IsReading (a ∷ b ∷ xs) = raise-IsReading _

pub require_variables-IsReading : (o : Option ContentVariables) → IsReading (require_variables o)
require_variables-IsReading none = raise-IsReading _
require_variables-IsReading (some v) = return-IsReading v

pub get_by_name-IsReading : (name : String) → IsReading (Templates.get_by_name name)
unfolding Templates.get_by_name
get_by_name-IsReading name = search (reading, scalar_one_or_none-IsReading)

pub get_many_by_ids-IsReading : (ids : List ℕ) → IsReading (Users.get_many_by_ids ids)
unfolding Users.get_many_by_ids
get_many_by_ids-IsReading [] = return-IsReading []
get_many_by_ids-IsReading (k ∷ ids) = query-IsReading _

get_active_by_user_ids-IsReading : (ids : List ℕ) → IsReading (Consents.get_active_by_user_ids ids)
unfolding Consents.get_active_by_user_ids
get_active_by_user_ids-IsReading [] = return-IsReading []
get_active_by_user_ids-IsReading (k ∷ ids) = query-IsReading _

pub resolve-IsReading : (user_ids : List ℕ) → IsReading (resolve user_ids [] [])
unfolding resolve expand_teams expand_lists
resolve-IsReading user_ids =
    search (reading, get_many_by_ids-IsReading, get_active_by_user_ids-IsReading) depth 30

pub resolve_territories-IsReading : (us : List User) → IsReading (resolve_territories us)
unfolding resolve_territories Teams.list_all
resolve_territories-IsReading us = search (reading)

module _ (context : Context) (env : Env) where
  pub build_company_wide_content-IsReading :
      (today now : ℕ) → IsReading (build_company_wide_content context today now)
  unfolding build_company_wide_content get_summary get_brand_summary SalesData.sum_amount_in_range
      SalesData.latest_per_team Teams.list_all ImportRuns.get_last_successful_completed_at
      BrandPerformance.list_all
  build_company_wide_content-IsReading today now = search (reading) depth 40

  build_doctor_section-IsReading :
      (territory : String) → IsReading (build_doctor_section context env territory)
  unfolding build_doctor_section get_visit_list Doctors.list_all
  build_doctor_section-IsReading territory = search (reading) depth 12

  cached_or_built-IsReading :
      (territory : String) (sections : Sections) (o : Option String)
      → IsReading (cached_or_built context env territory sections o)
  cached_or_built-IsReading territory sections (some s) = return-IsReading _
  cached_or_built-IsReading territory sections none =
      search (reading, build_doctor_section-IsReading)

  module _ (c : CompanyWideReportContent) (slots : List String) where
    recipient_variables-IsReading :
        (k : ℕ) (o : Option (ℕ × String)) (sections : Sections)
        → IsReading (recipient_variables context env c slots k o sections)
    unfolding recipient_variables
    recipient_variables-IsReading k none sections = return-IsReading _
    recipient_variables-IsReading k (some (u, t)) sections =
        search (reading, cached_or_built-IsReading, require_variables-IsReading) depth 12

    pub all_variables-IsReading :
        (ts : List (ℕ × String)) (sections : Sections) (ids : List ℕ)
        → IsReading (all_variables context env c slots ts sections ids)
    unfolding all_variables
    all_variables-IsReading ts sections [] = return-IsReading _
    all_variables-IsReading ts sections (k ∷ ids) =
        let ih : (s : Sections) → IsReading (all_variables context env c slots ts s ids) =
          λ s. all_variables-IsReading ts s ids in
        search (reading, recipient_variables-IsReading, ih) depth 12
