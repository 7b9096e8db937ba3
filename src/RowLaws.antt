-- ===== src/RowLaws.antt =====
-- Laws of the list functions of Rows.
use growth_track.Prelude.{
  ℕ, ◌≤◌, ◌≡◌, refl, inl, inr, Bool, true, false, ◌&&◌, not, some, List, [], ◌∷◌, arith, ◌==◌,
  Bool-cases, is_some, length, rows_where, set_where, find?, any, count_where, contains, remove_all,
  dedupe, Distinct,
}

-- Every row has a property.
abbrev pub All {ℓ κ} : {A : Type ℓ} → (A → Type κ) → List A → Type κ
All P [] = Unit
All P (x ∷ xs) = P x × All P xs

module _ {ℓ} {A : Type ℓ} where
  pub length-rows_where : (p : A → Bool) (xs : List A) → length (rows_where p xs) ≤ length xs
  length-rows_where p [] = omega arith
  length-rows_where p (x ∷ xs) = ground (arith, length-rows_where p xs)

  -- What is found passes the test.
  pub find?-passes : (p : A → Bool) (xs : List A) {x : A} → find? p xs ≡ some x → p x ≡ true
  find?-passes p [] h = cc
  find?-passes p (y ∷ xs) {x} h = elim (Bool-cases (p y)) [
    | inl e ↦ let h' : some y ≡ some x = rw e at h in cc
    | inr e ↦ find?-passes p xs (rw e at h)
  ]

module _ {ℓ} {A : Type ℓ} where
  -- An UPDATE that matches no row changes nothing.
  pub set_where-none :
      (p : A → Bool) (f : A → A) (xs : List A) → any p xs ≡ false → set_where p f xs ≡ xs
  set_where-none p f [] h = refl
  set_where-none p f (x ∷ xs) h = ground (arith, set_where-none p f xs)

module _ {ℓ} {A : Type ℓ} where
  -- A WHERE clause that an UPDATE does not affect reads the updated rows.
  pub rows_where-set_where :
      (p q : A → Bool) (f : A → A)
      → ((x : A) → p (f x) ≡ p x)
      → (xs : List A) → rows_where p (set_where q f xs) ≡ set_where q f (rows_where p xs)
  rows_where-set_where p q f h [] = refl
  rows_where-set_where p q f h (x ∷ xs) = ground (arith, h x, rows_where-set_where p q f h xs)

  -- A lookup by the key of the UPDATE finds the updated row.
  pub find?-set_where :
      (p : A → Bool) (f : A → A)
      → ((x : A) → p (f x) ≡ p x)
      → (xs : List A) {x : A} → find? p xs ≡ some x
      → find? p (set_where p f xs) ≡ some (f x)
  find?-set_where p f h [] e = cc
  find?-set_where p f h (y ∷ xs) {x} e = elim (Bool-cases (p y)) [
    | inl b ↦ let same : some y ≡ some x = rw b at e in ground (arith, h y)
    | inr b ↦ ground (arith, h y, find?-set_where p f h xs (rw b at e))
  ]

  pub count_where-rows_where :
      (p : A → Bool) (xs : List A) → length (rows_where p xs) ≡ count_where p xs
  count_where-rows_where p [] = refl
  count_where-rows_where p (x ∷ xs) = ground (arith, count_where-rows_where p xs)

  pub any-count_where : (p : A → Bool) (xs : List A) → any p xs ≡ not (count_where p xs == 0)
  any-count_where p [] = refl
  any-count_where p (x ∷ xs) = ground (arith, any-count_where p xs)

  pub find?-any : (p : A → Bool) (xs : List A) → is_some (find? p xs) ≡ any p xs
  find?-any p [] = refl
  find?-any p (x ∷ xs) = ground (arith, find?-any p xs)

pub contains-remove_all :
    (j k : ℕ) (xs : List ℕ) → contains j (remove_all k xs) ≡ (contains j xs && not (j == k))
contains-remove_all j k [] = refl
contains-remove_all j k (x ∷ xs) = ground (arith, contains-remove_all j k xs)

pub length-remove_all : (k : ℕ) (xs : List ℕ) → length (remove_all k xs) ≤ length xs
length-remove_all k xs = length-rows_where (λ x. not (x == k)) xs

pub Distinct-remove_all : (k : ℕ) (xs : List ℕ) → Distinct xs → Distinct (remove_all k xs)
Distinct-remove_all k [] d = tt
Distinct-remove_all k (x ∷ xs) d =
    ground (arith, Distinct-remove_all k xs d.1, contains-remove_all x k xs)

pub Distinct-dedupe : (xs : List ℕ) → Distinct (dedupe xs)
Distinct-dedupe [] = tt
Distinct-dedupe (x ∷ xs) = ground (
  arith,
  Distinct-remove_all x (dedupe xs) (Distinct-dedupe xs),
  contains-remove_all x x (dedupe xs),
)

pub contains-dedupe : (k : ℕ) (xs : List ℕ) → contains k (dedupe xs) ≡ contains k xs
contains-dedupe k [] = refl
contains-dedupe k (x ∷ xs) =
    ground (arith, contains-dedupe k xs, contains-remove_all k x (dedupe xs))

pub length-dedupe : (xs : List ℕ) → length (dedupe xs) ≤ length xs
length-dedupe [] = omega arith
length-dedupe (x ∷ xs) = omega (arith, length-dedupe xs, length-remove_all x (dedupe xs))
