-- ===== src/Tests/Reporting.antt =====
-- The schedule theorems at six hours ahead of UTC, the classes of three brands and a visit list.
use growth_track.Reports.Formatting.{round_ties_up}
use growth_track.Reports.Formatting.Laws.{round_ties_up-rest}
use growth_track.Prelude.{
  Bool, strip, ℕ, ◌<◌, String, ◌≡◌, refl, ◌&&◌, none, [], ◌∷◌, map, arith, str_eq, count_where,
  ◌+ℤ◌, ◌*ℤ◌, pos, negsuc,
}
use growth_track.Models.{report_schedule_id, BrandPerformance, ReportSchedule}
use growth_track.Session.{World, ok}
use growth_track.Tests.Samples.{sample_env, sample_world, doctor}
use growth_track.Metrics.{
  BrandPerformanceSummary, classify_brands, DoctorEntry, rank_doctors_for_territory,
}
use growth_track.Metrics.Visits.{AtMost, rank_doctors_for_territory_complete}
use growth_track.SortLaws.{Chain}
use growth_track.Metrics.Laws.{Disjoint, classify_brands-Disjoint}
use growth_track.Schedule.{get_schedule, shown_time, set_from_page}
use growth_track.Schedule.Laws.{set_from_page-shown}

abbrev midnight : ReportSchedule
midnight = record {
  id = report_schedule_id;
  send_hour_utc = 0;
  send_minute_utc = 0;
  updated_at = 0;
  updated_by_user_id = none;
}

abbrev scheduled_world : World
scheduled_world = record sample_world {
  db = record sample_world.db { report_schedules = midnight ∷ [] };
}

set_from_page-shown_example :
    (s' : ReportSchedule) × ((set_from_page sample_env 360 3 30 1 scheduled_world).0 ≡ ok s')
    × ((get_schedule (set_from_page sample_env 360 3 30 1 scheduled_world).1).0 ≡ ok s')
    × (shown_time 360 s' ≡ (3, 30))
set_from_page-shown_example =
    set_from_page-shown sample_env 360 3 30 1 scheduled_world midnight refl (omega arith)
      (omega arith) (omega arith)

abbrev brand : String → ℕ → BrandPerformance
brand name rank = record {
  id = 1;
  external_brand_id = name;
  brand_name = name;
  sales = pos 0;
  rank = pos rank;
  growth_pct = negsuc rank;
}

abbrev classes : BrandPerformanceSummary
classes = classify_brands (brand "B" 2 ∷ brand "A" 1 ∷ brand "C" 3 ∷ []) 1 1 1

classify_brands-Disjoint_example :
    Disjoint classes.top_brands classes.low_performing_brands
    × Disjoint classes.top_brands classes.focus_brands
    × Disjoint classes.low_performing_brands classes.focus_brands
classify_brands-Disjoint_example =
    classify_brands-Disjoint (brand "B" 2 ∷ brand "A" 1 ∷ brand "C" 3 ∷ []) 1 1 1

-- The best brand is a top brand, the worst a low-performing one, and the third is in focus.
classes-focus : map (λ e. e.brand_name) classes.focus_brands ≡ "B" ∷ []
unfolding classify_brands
classes-focus = refl

abbrev same_text : String → String
same_text s = s

rank_doctors_for_territory_complete_example :
    ((p : DoctorEntry → Bool)
      → count_where p (rank_doctors_for_territory same_text (doctor ∷ []) "Dhaka")
        ≡ count_where
            (λ r.
              str_eq (same_text (strip r.territory)) (same_text (strip "Dhaka"))
              && p (record {
                doctor_name = r.name;
                territory = r.territory;
                target_priority = r.priority;
              }))
            (doctor ∷ []))
    × Chain
        (λ a b. AtMost a.target_priority b.target_priority)
        (rank_doctors_for_territory same_text (doctor ∷ []) "Dhaka")
rank_doctors_for_territory_complete_example =
    rank_doctors_for_territory_complete same_text (doctor ∷ []) "Dhaka"

round_ties_up-rest_example :
    (m : ℕ) × (m < 4)
    × (((pos 2 *ℤ pos 81) +ℤ pos 2) ≡ ((pos 4 *ℤ round_ties_up 1 (pos 81) 1) +ℤ pos m))
round_ties_up-rest_example = round_ties_up-rest 1 (pos 81) 1
