-- ===== src/Metrics/Visits.antt =====
-- Laws of the doctors' visit list (_rank_doctors_for_territory in domain/metrics.py).
use native.Mathlib.Omega.{compare-lt, compare-eq, compare-gt}
use growth_track.Prelude.{
  ℕ, compare, ℤ, pos, negsuc, ◌≤◌, ◌⊎◌, inl, inr, String, ◌≡◌, refl, ◌∙◌, Bool, ◌&&◌, List, [], ◌∷◌,
  map, arith, rows_where, count_where, str_eq, strip, Ordering, compare_ℤ, and_then,
}
use growth_track.Models.{Doctor}
use growth_track.SortLaws.{count-sorted, count-filtered, Chain, Chain-map, Chain-sorted}
use growth_track.Metrics.{
  DoctorEntry, to_doctor_entry, urgent_first, is_in, rank_doctors_for_territory,
}

count-map :
    (p : DoctorEntry → Bool) (xs : List Doctor)
    → count_where p (map to_doctor_entry xs) ≡ count_where (λ x. p (to_doctor_entry x)) xs
count-map p [] = refl
count-map p (x ∷ xs) = ground (arith, count-map p xs)

-- The order of integers.
abbrev pub AtMost : ℤ → ℤ → Type 0
AtMost (pos m) (pos n) = m ≤ n
AtMost (pos m) (negsuc n) = 1 ≤ 0
AtMost (negsuc m) (pos n) = 0 ≤ 1
AtMost (negsuc m) (negsuc n) = n ≤ m

compare-bounds :
    (m n : ℕ)
    → (compare m n ≡ Ordering.lt → m ≤ n)
      × (compare m n ≡ Ordering.eq → m ≤ n × n ≤ m)
      × (compare m n ≡ Ordering.gt → n ≤ m)
compare-bounds m n = (
  λ h. let l = compare-lt m n h in omega arith,
  λ h. let e = compare-eq m n h in (omega arith, omega arith),
  λ h. let g = compare-gt m n h in omega arith,
)

compare_ℤ-AtMost :
    (a b : ℤ)
    → ((compare_ℤ a b ≡ Ordering.lt) → AtMost a b)
      × ((compare_ℤ a b ≡ Ordering.eq) → AtMost a b × AtMost b a)
      × ((compare_ℤ a b ≡ Ordering.gt) → AtMost b a)
compare_ℤ-AtMost (pos m) (pos n) = compare-bounds m n
compare_ℤ-AtMost (pos m) (negsuc n) = (λ h. cc, λ h. cc, λ h. omega arith)
compare_ℤ-AtMost (negsuc m) (pos n) = (λ h. omega arith, λ h. cc, λ h. cc)
compare_ℤ-AtMost (negsuc m) (negsuc n) = let (f, g, h) = compare-bounds n m in (f, g, h)

-- A comparison by priority and then by something else.
decided :
    (a b : ℤ) (o rest : Ordering)
    → compare_ℤ a b ≡ o
    → ((and_then o rest ≡ Ordering.lt) ⊎ (and_then o rest ≡ Ordering.eq) → AtMost a b)
      × (and_then o rest ≡ Ordering.gt → AtMost b a)
decided a b Ordering.lt rest e = (λ h. (compare_ℤ-AtMost a b).0 e, λ h. cc)
decided a b Ordering.eq rest e = let (f, g) = (compare_ℤ-AtMost a b).1 e in (λ h. f, λ h. g)
decided a b Ordering.gt rest e =
    (λ h. elim h [ inl x ↦ cc | inr x ↦ cc ], λ h. (compare_ℤ-AtMost a b).2 e)

-- The visit list of a territory holds the doctors whose territory is that one up to outer space and
-- case, and no other, each as often as it is stored, with the doctor's name, territory and priority:
-- whatever is asked of an entry, as many entries of the list pass as there are such doctors whose
-- entry passes. It is in ascending order of the priorities.
pub rank_doctors_for_territory_complete :
    (lower : String → String) (rows : List Doctor) (territory : String)
    → ((p : DoctorEntry → Bool)
        → count_where p (rank_doctors_for_territory lower rows territory)
          ≡ count_where
              (λ r.
                str_eq (lower (strip r.territory)) (lower (strip territory))
                && p (record {
                  doctor_name = r.name;
                  territory = r.territory;
                  target_priority = r.priority;
                }))
              rows)
      × Chain
          (λ a b. AtMost a.target_priority b.target_priority)
          (rank_doctors_for_territory lower rows territory)
unfolding rank_doctors_for_territory is_in
rank_doctors_for_territory_complete lower rows territory = (
  λ p.
      count-map p _
      ∙ count-sorted _ urgent_first (rows_where (is_in lower territory) rows)
      ∙ count-filtered _ (is_in lower territory) rows,
  Chain-map (λ a b. AtMost a.target_priority b.target_priority) to_doctor_entry _
      (Chain-sorted (λ (r s : Doctor). AtMost r.priority s.priority) urgent_first
        (λ x y. (decided x.priority y.priority _ _ refl).0)
        (λ x y. (decided x.priority y.priority _ _ refl).1)
        (rows_where (is_in lower territory) rows)),
)
