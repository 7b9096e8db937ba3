-- ===== src/Reports/Formatting.antt =====
-- Rounding and texts of the report's figures (domain/report_formatting.py).
pub mod Laws
use Prim.Native.String.{◌++◌ as concat}
use growth_track.Reports.{Context}
use growth_track.Reports.Dashboard.{Ratio}
use growth_track.Prelude.{ℕ, suc, ◌+◌, ◌-◌, ◌*◌, ◌/◌, ◌%◌, String, ◌+ℤ◌, ◌*ℤ◌, ℤ, pos, negsuc}

-- The greatest integer that is at most a / (d + 1): `to_integral_value(rounding=ROUND_FLOOR)`.
abbrev pub floor_of : ℤ → ℕ → ℤ
floor_of (pos n) d = pos (n / suc d)
floor_of (negsuc n) d = negsuc (n / suc d)

-- `_round_ties_up` of a / (d + 1), as the multiple of the exponent 1 / k.
unfoldable pub round_ties_up : ℕ → ℤ → ℕ → ℤ
round_ties_up k a d = floor_of ((pos (2 * k) *ℤ a) +ℤ pos (d + 1)) (2 * d + 1)

abbrev pub sign : ℤ → String
sign (pos n) = ""
sign (negsuc n) = "-"

abbrev pub magnitude : ℤ → ℕ
magnitude (pos n) = n
magnitude (negsuc n) = n + 1

-- The denominator, less one, of a fraction with the denominators d + 1 and e + 1.
abbrev pub times_pred : ℕ → ℕ → ℕ
times_pred d e = (d + 1) * (e + 1) - 1

module _ (context : Context) where
  -- `f"{crores:.1f}"` of a number of tenths.
  abbrev pub one_decimal : ℤ → String
  one_decimal tenths = concat (sign tenths) (
      concat (context.str (magnitude tenths / 10))
        (concat "." (context.str (magnitude tenths % 10))))

  unfoldable pub format_cr_bdt : ℤ → String
  unfolding round_ties_up
  format_cr_bdt amount =
      concat (one_decimal (round_ties_up 10 amount (times_pred 9999999 context.unit_pred)))
        " Cr BDT"

  unfoldable pub format_percent : Ratio → String
  unfolding round_ties_up
  format_percent pct =
      let rounded =
        round_ties_up 1 pct.numerator (times_pred pct.denominator_pred context.unit_pred) in
      concat (sign rounded) (concat (context.str (magnitude rounded)) "%")
