-- ===== src/Prelude/Sorting.antt =====
-- `sorted`, as a stable insertion sort by a comparison of keys, and slices.
use Prim.Native.Nat.{ℕ, zero, suc, Ordering}
use mathlib.Core.List.{List, [], ◌∷◌}

module _ {ℓ} {A : Type ℓ} where
  abbrev pub insert : (A → A → Ordering) → A → List A → List A
  insert key x [] = x ∷ []
  insert key x (y ∷ ys) =
      let rest = insert key x ys in elim (key x y) [ Ordering.gt ↦ y ∷ rest | _ ↦ x ∷ y ∷ ys ]

  -- `sorted(xs, key=...)`, which keeps the order of items with equal keys.
  abbrev pub sorted : (A → A → Ordering) → List A → List A
  sorted key [] = []
  sorted key (x ∷ xs) = insert key x (sorted key xs)

  -- `xs[:n]`.
  abbrev pub take : ℕ → List A → List A
  take zero xs = []
  take (suc n) [] = []
  take (suc n) (x ∷ xs) = x ∷ take n xs
