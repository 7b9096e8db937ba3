-- ===== src/Metrics.antt =====
-- The classification of brands and the doctors' visit list (domain/metrics.py). The three counts are
-- natural numbers, as the settings are positive, so that the ValueError for a negative count does not
-- occur.
pub mod Laws
pub mod Visits
use growth_track.Models.{BrandPerformance, Doctor}
use growth_track.Prelude.{
  ℕ, Ordering, String, Bool, not, List, map, str_eq, rows_where, strip, sorted, take, compare_ℤ,
  is_negative, compare_text, and_then, ℤ,
}
use growth_track.Notifications.TemplateDirectory.{has_text}

pub record BrandEntry : Type 0 where
  pub external_brand_id : String
  pub brand_name : String
  pub sales : ℤ
  pub rank : ℤ
  pub growth_pct : ℤ

pub record BrandPerformanceSummary : Type 0 where
  pub top_brands : List BrandEntry
  pub low_performing_brands : List BrandEntry
  pub focus_brands : List BrandEntry

abbrev pub to_entry : BrandPerformance → BrandEntry
to_entry r = record {
  external_brand_id = r.external_brand_id;
  brand_name = r.brand_name;
  sales = r.sales;
  rank = r.rank;
  growth_pct = r.growth_pct;
}

abbrev pub brand_id : BrandPerformance → String
brand_id r = r.external_brand_id

abbrev pub best_first : BrandPerformance → BrandPerformance → Ordering
best_first r s = and_then (compare_ℤ r.rank s.rank) (compare_text r.brand_name s.brand_name)

abbrev pub worst_first : BrandPerformance → BrandPerformance → Ordering
worst_first r s = and_then (compare_ℤ s.rank r.rank) (compare_text r.brand_name s.brand_name)

abbrev pub steepest_first : BrandPerformance → BrandPerformance → Ordering
steepest_first r s =
    and_then (compare_ℤ r.growth_pct s.growth_pct) (compare_text r.brand_name s.brand_name)

-- `[r for r in rows if r.external_brand_id not in ids]`.
abbrev pub without : List String → List BrandPerformance → List BrandPerformance
without ids = rows_where (λ r. not (has_text r.external_brand_id ids))

unfoldable pub classify_brands : List BrandPerformance → ℕ → ℕ → ℕ → BrandPerformanceSummary
classify_brands rows top_n low_performing_n focus_n =
    let by_rank = sorted best_first rows in
    let top = take top_n by_rank in
    let remaining_after_top = without (map brand_id top) by_rank in
    let low = take low_performing_n (sorted worst_first remaining_after_top) in
    let remaining_after_low = without (map brand_id low) remaining_after_top in
    let focus =
      take focus_n
        (sorted steepest_first (rows_where (λ r. is_negative r.growth_pct) remaining_after_low)) in
    record {
      top_brands = map to_entry top;
      low_performing_brands = map to_entry low;
      focus_brands = map to_entry focus;
    }

pub record DoctorEntry : Type 0 where
  pub doctor_name : String
  pub territory : String
  pub target_priority : ℤ

abbrev pub to_doctor_entry : Doctor → DoctorEntry
to_doctor_entry r = record {
  doctor_name = r.name;
  territory = r.territory;
  target_priority = r.priority;
}

abbrev pub urgent_first : Doctor → Doctor → Ordering
urgent_first r s =
    and_then (compare_ℤ r.priority s.priority) (
      and_then (compare_text r.name s.name)
        (compare_text r.external_doctor_id s.external_doctor_id))

-- `r.territory.strip().lower() == territory.strip().lower()`; `lower` is str.lower.
unfoldable pub is_in : (String → String) → String → Doctor → Bool
unfolding strip
is_in lower territory r = str_eq (lower (strip r.territory)) (lower (strip territory))

unfoldable pub rank_doctors_for_territory :
    (String → String) → List Doctor → String → List DoctorEntry
unfolding is_in
rank_doctors_for_territory lower rows territory =
    map to_doctor_entry (sorted urgent_first (rows_where (is_in lower territory) rows))
