-- ===== src/Prelude/Rows.antt =====
-- Tables as lists of rows: WHERE, SET ... WHERE, COUNT and EXISTS, a dict comprehension over rows,
-- and `list(dict.fromkeys(xs))`.
use Prim.Native.Nat.{ℕ, suc, ◌+◌}
use mathlib.Core.Path.{◌≡◌}
use mathlib.Core.Bool.{Bool, true, false, ◌&&◌, ◌||◌, not}
use mathlib.Core.Option.{Option, none, some}
use mathlib.Core.List.{List, [], ◌∷◌}
use growth_track.Prelude.Tests.{◌==◌, if◌then◌else◌, first_some}

module _ {ℓ} {A : Type ℓ} where
  abbrev pub length : List A → ℕ
  length [] = 0
  length (x ∷ xs) = suc (length xs)

  -- The rows that a WHERE clause keeps.
  abbrev pub rows_where : (A → Bool) → List A → List A
  rows_where p [] = []
  rows_where p (x ∷ xs) = let rest = rows_where p xs in if p x then x ∷ rest else rest

  -- UPDATE ... SET f WHERE p.
  abbrev pub set_where : (A → Bool) → (A → A) → List A → List A
  set_where p f [] = []
  set_where p f (x ∷ xs) = (if p x then f x else x) ∷ set_where p f xs

  -- The first row that passes, as a lookup by primary key sees it.
  abbrev pub find? : (A → Bool) → List A → Option A
  find? p [] = none
  find? p (x ∷ xs) = let rest = find? p xs in if p x then some x else rest

  abbrev pub any : (A → Bool) → List A → Bool
  any p [] = false
  any p (x ∷ xs) = p x || any p xs

  abbrev pub all : (A → Bool) → List A → Bool
  all p [] = true
  all p (x ∷ xs) = p x && all p xs

  abbrev pub count_where : (A → Bool) → List A → ℕ
  count_where p [] = 0
  count_where p (x ∷ xs) = (if p x then 1 else 0) + count_where p xs

  -- `{key(x): x for x in xs}.get(k)`: a later row overrides an earlier one.
  abbrev pub dict_get : (A → ℕ) → ℕ → List A → Option A
  dict_get key k [] = none
  dict_get key k (x ∷ xs) = first_some (dict_get key k xs) (if key x == k then some x else none)

-- `k in xs`.
abbrev pub contains : ℕ → List ℕ → Bool
contains k = any (λ x. x == k)

abbrev pub remove_all : ℕ → List ℕ → List ℕ
remove_all k = rows_where (λ x. not (x == k))

-- `list(dict.fromkeys(xs))`: the first of each run of equal items, in order.
abbrev pub dedupe : List ℕ → List ℕ
dedupe [] = []
dedupe (x ∷ xs) = x ∷ remove_all x (dedupe xs)

-- No item twice.
abbrev pub Distinct : List ℕ → Type 0
Distinct [] = Unit
Distinct (x ∷ xs) = (contains x xs ≡ false) × Distinct xs
