-- ===== src/Prelude/Integers.antt =====
-- Integers, and the comparison of keys. `negsuc n` is -(n + 1).
use Prim.Native.Nat.{ℕ, ◌+◌, ◌-◌, ◌*◌, Ordering, compare}
use Prim.Native.String.{compare as compare_string, String}
use mathlib.Core.Bool.{Bool, true, false}
use growth_track.Prelude.Tests.{ltb, if◌then◌else◌}

pub data ℤ : Type 0 where
  pos : ℕ → ℤ
  negsuc : ℕ → ℤ

-- m - n
abbrev pub diff : ℕ → ℕ → ℤ
diff m n = if ltb m n then negsuc (n - m - 1) else pos (m - n)

infixl 60 ◌+ℤ◌
abbrev pub ◌+ℤ◌ : ℤ → ℤ → ℤ
pos m +ℤ pos n = pos (m + n)
pos m +ℤ negsuc n = diff m (n + 1)
negsuc m +ℤ pos n = diff n (m + 1)
negsuc m +ℤ negsuc n = negsuc (m + n + 1)

-- -n
abbrev pub minus : ℕ → ℤ
minus n = diff 0 n

infixl 70 ◌*ℤ◌
abbrev pub ◌*ℤ◌ : ℤ → ℤ → ℤ
pos m *ℤ pos n = pos (m * n)
pos m *ℤ negsuc n = minus (m * (n + 1))
negsuc m *ℤ pos n = minus ((m + 1) * n)
negsuc m *ℤ negsuc n = pos ((m + 1) * (n + 1))

abbrev pub compare_ℤ : ℤ → ℤ → Ordering
compare_ℤ (pos m) (pos n) = compare m n
compare_ℤ (pos m) (negsuc n) = Ordering.gt
compare_ℤ (negsuc m) (pos n) = Ordering.lt
compare_ℤ (negsuc m) (negsuc n) = compare n m

abbrev pub is_negative : ℤ → Bool
is_negative (pos n) = false
is_negative (negsuc n) = true

-- Texts by code points.
abbrev pub compare_text : String → String → Ordering
compare_text = compare_string

-- The order of pairs.
abbrev pub and_then : Ordering → Ordering → Ordering
and_then Ordering.lt o = Ordering.lt
and_then Ordering.eq o = o
and_then Ordering.gt o = Ordering.gt
