-- ===== src/Metrics/Laws.antt =====
-- Laws of the classification of brands (_classify_brands in domain/metrics.py).
use growth_track.Prelude.{
  ℕ, String, subst, ◌≡◌, refl, sym, ap, inl, inr, false, List, [], ◌∷◌, map, Bool-cases, rows_where,
  sorted, take, is_negative,
}
use growth_track.RowLaws.{All}
use growth_track.Models.{BrandPerformance}
use growth_track.SortLaws.{All-sorted, All-take, All-rows_where}
use growth_track.Notifications.TemplateDirectory.{has_text}
use growth_track.Metrics.{
  BrandEntry, to_entry, brand_id, best_first, worst_first, steepest_first, without, is_negative,
  classify_brands,
}

-- Not one of these ids.
abbrev Outside : List String → BrandPerformance → Type 0
Outside ids r = has_text r.external_brand_id ids ≡ false

without-Outside :
    (ids : List String) (rows : List BrandPerformance) → All (Outside ids) (without ids rows)
without-Outside ids [] = tt
without-Outside ids (r ∷ rows) = elim (Bool-cases (has_text r.external_brand_id ids)) [
  | inl e ↦ rw e (without-Outside ids rows)
  | inr e ↦ rw e (e, without-Outside ids rows)
]

abbrev pub entry_id : BrandEntry → String
entry_id e = e.external_brand_id

-- No brand of the second list has an id of the first.
abbrev pub Disjoint : List BrandEntry → List BrandEntry → Type 0
Disjoint first second = All (λ e. has_text (entry_id e) (map entry_id first) ≡ false) second

entry_ids : (rows : List BrandPerformance) → map entry_id (map to_entry rows) ≡ map brand_id rows
entry_ids [] = refl
entry_ids (x ∷ rows) = ap (λ ids. x.external_brand_id ∷ ids) (entry_ids rows)

entries-Disjoint :
    (first second : List BrandPerformance)
    → All (Outside (map brand_id first)) second
    → Disjoint (map to_entry first) (map to_entry second)
entries-Disjoint first [] h = tt
entries-Disjoint first (r ∷ second) h = (
  subst (λ ids. has_text r.external_brand_id ids ≡ false) (sym (entry_ids first)) h.0,
  entries-Disjoint first second h.1,
)

-- The three classes are pairwise disjoint by brand id, whatever the rows and the counts are.
pub classify_brands-Disjoint :
    (rows : List BrandPerformance) (top_n low_performing_n focus_n : ℕ)
    → Disjoint
        (classify_brands rows top_n low_performing_n focus_n).top_brands
        (classify_brands rows top_n low_performing_n focus_n).low_performing_brands
      × Disjoint
          (classify_brands rows top_n low_performing_n focus_n).top_brands
          (classify_brands rows top_n low_performing_n focus_n).focus_brands
      × Disjoint
          (classify_brands rows top_n low_performing_n focus_n).low_performing_brands
          (classify_brands rows top_n low_performing_n focus_n).focus_brands
unfolding classify_brands
classify_brands-Disjoint rows top_n low_performing_n focus_n =
    let by_rank = sorted best_first rows in
    let top = take top_n by_rank in
    let rest = without (map brand_id top) by_rank in
    let low = take low_performing_n (sorted worst_first rest) in
    let rest' = without (map brand_id low) rest in
    let declining = rows_where (λ r. is_negative r.growth_pct) rest' in
    let out = without-Outside (map brand_id top) by_rank in
    (
      entries-Disjoint top low (All-take _ low_performing_n _ (All-sorted _ worst_first rest out)),
      entries-Disjoint top _ (
          All-take _ focus_n _ (
            All-sorted _ steepest_first declining
              (All-rows_where _ _ rest' (All-rows_where _ _ rest out)))),
      entries-Disjoint low _ (
          All-take _ focus_n _ (
            All-sorted _ steepest_first declining
              (All-rows_where _ _ rest' (without-Outside (map brand_id low) rest)))),
    )
