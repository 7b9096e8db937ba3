-- ===== src/Api/Dashboard.antt =====
-- /dashboard (api/dashboard/routes.py).
use growth_track.Models.{NotificationStatusSummary}
use growth_track.Session.{Session, return, external, ◌>>=◌, Env}
use growth_track.Api.Replies.{Reply, done}
use growth_track.Metrics.{BrandPerformanceSummary}
use growth_track.Reports.{Context}
use growth_track.Reports.Dashboard.{
  Ratio, TeamPerformance, DashboardSummary, get_summary, get_brand_summary,
}
use growth_track.Notifications.Webhook.{latest_notification_status}
use growth_track.Prelude.{ℕ, String, Bool, Option, List, map, ℤ}

pub record DashboardSummaryResponse : Type 0 where
  pub today_sales : ℤ
  pub ytd_sales : ℤ
  pub mtd_sales : ℤ
  pub achievement_pct : Option Ratio
  pub growth_pct : Option Ratio
  -- the names and percentages of the teams
  pub team_performance : List (String × ℤ)
  pub data_as_of : Option ℕ
  pub is_stale : Bool

abbrev pub to_summary_response : DashboardSummary → DashboardSummaryResponse
to_summary_response result = record {
  today_sales = result.today_sales;
  ytd_sales = result.ytd_sales;
  mtd_sales = result.mtd_sales;
  achievement_pct = result.achievement_pct;
  growth_pct = result.growth_pct;
  team_performance =
      map (λ (tp : TeamPerformance). (tp.team_name, tp.achievement_pct)) result.team_performance;
  data_as_of = result.data_as_of;
  is_stale = result.is_stale;
}

module _ (context : Context) where
  -- `dhaka_day now` is the number of the day in Asia/Dhaka.
  unfoldable pub summary : Env → (ℕ → ℕ) → Session (Reply DashboardSummaryResponse)
  summary env dhaka_day = do
    now ← external env.now
    result ← get_summary context (dhaka_day now) now
    return (done (to_summary_response result))

  unfoldable pub brand_performance : Session (Reply BrandPerformanceSummary)
  brand_performance = do result ← get_brand_summary context; return (done result)

  unfoldable pub notification_status : Session (Reply (Option NotificationStatusSummary))
  notification_status = do latest ← latest_notification_status; return (done latest)
