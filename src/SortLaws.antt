-- ===== src/SortLaws.antt =====
-- Laws of `sorted` and slices.
use growth_track.Prelude.{
  ℕ, zero, suc, ◌≡◌, refl, ◌⊎◌, inl, inr, Bool, ◌&&◌, List, [], ◌∷◌, map, arith, Bool-cases,
  rows_where, count_where, insert, sorted, take,
}
use Prim.Native.Nat.{Ordering}
use growth_track.RowLaws.{All}

module _ {ℓ κ} {A : Type ℓ} (P : A → Type κ) where
  All-either :
      (o : Ordering) (x y : A) (xs rest : List A)
      → P x
      → All P (y ∷ xs)
      → All P rest
      → All P (elim o [ Ordering.gt ↦ y ∷ rest | _ ↦ x ∷ y ∷ xs ])
  All-either Ordering.gt x y xs rest p h r = (h.0, r)
  All-either Ordering.eq x y xs rest p h r = (p, h)
  All-either Ordering.lt x y xs rest p h r = (p, h)

  All-insert :
      (key : A → A → Ordering) (x : A) (xs : List A) → P x → All P xs → All P (insert key x xs)
  All-insert key x [] p h = (p, tt)
  All-insert key x (y ∷ xs) p h =
      All-either (key x y) x y xs (insert key x xs) p h (All-insert key x xs p h.1)

  pub All-sorted : (key : A → A → Ordering) (xs : List A) → All P xs → All P (sorted key xs)
  All-sorted key [] h = tt
  All-sorted key (x ∷ xs) h = All-insert key x (sorted key xs) h.0 (All-sorted key xs h.1)

  pub All-take : (n : ℕ) (xs : List A) → All P xs → All P (take n xs)
  All-take zero xs h = tt
  All-take (suc n) [] h = tt
  All-take (suc n) (x ∷ xs) h = (h.0, All-take n xs h.1)

  pub All-rows_where : (p : A → Bool) (xs : List A) → All P xs → All P (rows_where p xs)
  All-rows_where p [] h = tt
  All-rows_where p (x ∷ xs) h = elim (Bool-cases (p x)) [
    | inl e ↦ rw e (h.0, All-rows_where p xs h.1)
    | inr e ↦ rw e (All-rows_where p xs h.1)
  ]

module _ {ℓ} {A : Type ℓ} (p : A → Bool) where
  count-either :
      (o : Ordering) (x y : A) (xs rest : List A)
      → count_where p rest ≡ count_where p (x ∷ xs)
      → count_where p (elim o [ Ordering.gt ↦ y ∷ rest | _ ↦ x ∷ y ∷ xs ])
        ≡ count_where p (x ∷ y ∷ xs)
  count-either Ordering.gt x y xs rest h = omega (arith, h)
  count-either Ordering.eq x y xs rest h = refl
  count-either Ordering.lt x y xs rest h = refl

  count-insert :
      (key : A → A → Ordering) (x : A) (xs : List A)
      → count_where p (insert key x xs) ≡ count_where p (x ∷ xs)
  count-insert key x [] = refl
  count-insert key x (y ∷ xs) =
      count-either (key x y) x y xs (insert key x xs) (count-insert key x xs)

  -- Sorting keeps how often each item stands in the list.
  pub count-sorted :
      (key : A → A → Ordering) (xs : List A) → count_where p (sorted key xs) ≡ count_where p xs
  count-sorted key [] = refl
  count-sorted key (x ∷ xs) = omega (arith, count-insert key x (sorted key xs), count-sorted key xs)

module _ {ℓ} {A : Type ℓ} where
  pub count-filtered :
      (p q : A → Bool) (xs : List A)
      → count_where p (rows_where q xs) ≡ count_where (λ x. q x && p x) xs
  count-filtered p q [] = refl
  count-filtered p q (x ∷ xs) = ground (arith, count-filtered p q xs)

-- A property of either list is one of the list that an ordering chooses.
chosen :
    {A : Type 0} (P : List A → Type 0) (o : Ordering) (a b : List A)
    → (o ≡ Ordering.gt → P a)
    → ((o ≡ Ordering.lt) ⊎ (o ≡ Ordering.eq) → P b)
    → P (elim o [ Ordering.gt ↦ a | _ ↦ b ])
chosen P Ordering.gt a b f g = f refl
chosen P Ordering.lt a b f g = g (inl refl)
chosen P Ordering.eq a b f g = g (inr refl)

-- Each item stands in a relation to the next.
abbrev pub Chain {ℓ κ} : {A : Type ℓ} → (A → A → Type κ) → List A → Type κ
Chain R [] = Unit
Chain R (x ∷ []) = Unit
Chain R (x ∷ y ∷ xs) = R x y × Chain R (y ∷ xs)

pub Chain-map :
    {A B : Type 0} (R : B → B → Type 0) (f : A → B) (xs : List A)
    → Chain (λ x y. R (f x) (f y)) xs
    → Chain R (map f xs)
Chain-map R f [] h = tt
Chain-map R f (x ∷ []) h = tt
Chain-map R f (x ∷ y ∷ xs) h = (h.0, Chain-map R f (y ∷ xs) h.1)

-- Sorting by a comparison that decides a relation, one way or the other.
module _ {A : Type 0} (R : A → A → Type 0) (key : A → A → Ordering)
    (forth : (x y : A) → (key x y ≡ Ordering.lt) ⊎ (key x y ≡ Ordering.eq) → R x y)
    (back : (x y : A) → key x y ≡ Ordering.gt → R y x) where
  Chain-insert_after :
      (y x : A) (xs : List A) → R y x → Chain R (y ∷ xs) → Chain R (y ∷ insert key x xs)
  Chain-insert_after y x [] r h = (r, tt)
  Chain-insert_after y x (z ∷ xs) r h =
      chosen (λ l. Chain R (y ∷ l)) (key x z) (z ∷ insert key x xs) (x ∷ z ∷ xs)
        (λ e. (h.0, Chain-insert_after z x xs (back x z e) h.1)) (λ e. (r, (forth x z e, h.1)))

  Chain-insert : (x : A) (xs : List A) → Chain R xs → Chain R (insert key x xs)
  Chain-insert x [] h = tt
  Chain-insert x (y ∷ xs) h =
      chosen (Chain R) (key x y) (y ∷ insert key x xs) (x ∷ y ∷ xs)
        (λ e. Chain-insert_after y x xs (back x y e) h) (λ e. (forth x y e, h))

  pub Chain-sorted : (xs : List A) → Chain R (sorted key xs)
  Chain-sorted [] = tt
  Chain-sorted (x ∷ xs) = Chain-insert x (sorted key xs) (Chain-sorted xs)
