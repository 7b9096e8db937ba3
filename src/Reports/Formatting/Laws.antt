-- ===== src/Reports/Formatting/Laws.antt =====
-- The rounding of the report's figures.
use native.Mathlib.Omega.{div_fact, mod_fact}
use native.Mathlib.Nat.{mul-suc}
use growth_track.Reports.Formatting.{floor_of, round_ties_up}
use growth_track.Prelude.{
  ℕ, suc, ◌+◌, ◌-◌, ◌*◌, ◌/◌, ◌%◌, ◌≤◌, ◌<◌, subst, ◌≡◌, sym, ap, ◌∙◌, arith, diff, ◌+ℤ◌, ◌*ℤ◌, ℤ,
  pos, negsuc,
}

floor_negative : (p d r x : ℕ) → x ≡ p + suc d → r ≤ d → (diff 0 x +ℤ pos (d - r)) ≡ negsuc (p + r)
floor_negative p d r x e h = ground (arith, e, h)

times_suc : (a b : ℕ) → suc a * (b + 1) ≡ suc a * b + suc a
times_suc a b = let e : b + 1 ≡ suc b = omega arith in ap (λ x. suc a * x) e ∙ mul-suc (suc a) b

-- A multiple of d + 1 with a rest from 0 to d.
floor_of-rest : (a : ℤ) (d : ℕ) → (m : ℕ) × (m ≤ d) × (a ≡ (pos (suc d) *ℤ floor_of a d) +ℤ pos m)
floor_of-rest (pos n) d =
    (n % suc d, omega (arith, mod_fact n d), ap (λ k. pos k) (sym (div_fact n d)))
floor_of-rest (negsuc n) d =
    let r = n % suc d in
    let q = n / suc d in
    let h : r ≤ d = omega (arith, mod_fact n d) in
    (
      d - r,
      omega arith,
      ap (λ k. negsuc k) (sym (div_fact n d))
          ∙ sym (floor_negative (suc d * q) d r (suc d * (q + 1)) (times_suc d q) h),
    )

-- The rounded value R of k * a / (d + 1) is the nearest integer, the greater one of two that are as
-- near: 2 * k * a + (d + 1) is 2 * (d + 1) * R and a rest of at least 0 and less than 2 * (d + 1).
pub round_ties_up-rest :
    (k : ℕ) (a : ℤ) (d : ℕ)
    → (m : ℕ) × (m < 2 * (d + 1))
      × (((pos (2 * k) *ℤ a) +ℤ pos (d + 1))
          ≡ ((pos (2 * (d + 1)) *ℤ round_ties_up k a d) +ℤ pos m))
unfolding round_ties_up
round_ties_up-rest k a d =
    let (m, h, e) = floor_of-rest ((pos (2 * k) *ℤ a) +ℤ pos (d + 1)) (2 * d + 1) in
    let double : suc (2 * d + 1) ≡ 2 * (d + 1) = omega arith in
    (
      m,
      omega (arith, h),
      subst
          (λ c.
            ((pos (2 * k) *ℤ a) +ℤ pos (d + 1))
            ≡ ((pos c *ℤ floor_of ((pos (2 * k) *ℤ a) +ℤ pos (d + 1)) (2 * d + 1)) +ℤ pos m))
          double e,
    )
