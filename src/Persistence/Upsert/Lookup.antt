-- ===== src/Persistence/Upsert/Lookup.antt =====
-- How the dict by the conflict key relates to the rows it is built from, by their keys.
use growth_track.Persistence.Upsert.{dict_set, dict_set_all, has_duplicates}
use growth_track.Prelude.{
  ℕ, ◌≡◌, refl, ◌∙◌, inl, inr, Bool, true, false, Option, none, some, List, [], ◌∷◌, arith,
  if◌then◌else◌, Bool-cases, first_some, any,
}

module _ {A C : Type 0} (content : A → C) (p : A → Bool) where
  -- The content of the first row that passes, and of the last one.
  abbrev pub lookup : List A → Option C
  lookup [] = none
  lookup (x ∷ xs) = let rest = lookup xs in if p x then some (content x) else rest

  abbrev pub lookup_last : List A → Option C
  lookup_last [] = none
  lookup_last (x ∷ xs) = first_some (lookup_last xs) (if p x then some (content x) else none)

pub record IsKey {A : Type 0} (same_key : A → A → Bool) : Type 0 where
  pub symmetric : (a b : A) → same_key a b ≡ same_key b a
  pub congruent : (a b c : A) → same_key a b ≡ true → same_key a c ≡ same_key b c

-- How the two assignments of an upsert treat the key and the content of a row.
pub record IsAssignment {A C : Type 0} (same_key : A → A → Bool) (content : A → C)
    (in_range : A → Bool) (refresh : A → A → A) (set_id : ℕ → A → A) : Type 0 where
  pub key_refresh : (k v old : A) → same_key k (refresh v old) ≡ same_key k old
  pub content_refresh : (v old : A) → same_key v old ≡ true → content (refresh v old) ≡ content v
  pub key_set_id : (k a : A) (i : ℕ) → same_key k (set_id i a) ≡ same_key k a
  pub content_set_id : (a : A) (i : ℕ) → content (set_id i a) ≡ content a
  pub range_set_id : (a : A) (i : ℕ) → in_range (set_id i a) ≡ in_range a

module _ {A : Type 0} (same_key : A → A → Bool) (key : IsKey same_key) where
  pub congruent_right : (a b c : A) → same_key a b ≡ true → same_key c a ≡ same_key c b
  congruent_right a b c e = key.symmetric c a ∙ key.congruent a b c e ∙ key.symmetric b c

  any_congruent :
      (a b : A) (xs : List A) → same_key a b ≡ true → any (same_key a) xs ≡ any (same_key b) xs
  any_congruent a b [] e = refl
  any_congruent a b (x ∷ xs) e = rw (key.congruent a b x e, any_congruent a b xs e) refl

  any-dict_set :
      (x row : A) (xs : List A)
      → same_key x row ≡ false
      → any (same_key x) xs ≡ false
      → any (same_key x) (dict_set same_key row xs) ≡ false
  any-dict_set x row [] e h = rw e refl
  any-dict_set x row (y ∷ ys) e h = elim (Bool-cases (same_key row y)) [
    | inl f ↦ rw f (ground (arith, h, e))
    | inr f ↦ rw f (ground (arith, any-dict_set x row ys e, h))
  ]

  has_duplicates-dict_set :
      (row : A) (xs : List A)
      → has_duplicates same_key xs ≡ false
      → has_duplicates same_key (dict_set same_key row xs) ≡ false
  has_duplicates-dict_set row [] h = refl
  has_duplicates-dict_set row (y ∷ ys) h = elim (Bool-cases (same_key row y)) [
    | inl f ↦ rw f (rw (any_congruent row y ys f) h)
    | inr f ↦
        let f' = key.symmetric y row ∙ f in
        rw f (ground (arith, h, any-dict_set y row ys f', has_duplicates-dict_set row ys))
  ]

  pub has_duplicates-dict_set_all :
      (rows entries : List A)
      → has_duplicates same_key entries ≡ false
      → has_duplicates same_key (dict_set_all same_key entries rows) ≡ false
  has_duplicates-dict_set_all [] entries h = h
  has_duplicates-dict_set_all (row ∷ rows) entries h =
      has_duplicates-dict_set_all rows (dict_set same_key row entries)
        (has_duplicates-dict_set row entries h)

  module _ {C : Type 0} (content : A → C) (k : A) where
    lookup-none :
        (xs : List A) → any (same_key k) xs ≡ false → lookup content (same_key k) xs ≡ none
    lookup-none [] h = refl
    lookup-none (x ∷ xs) h = elim (Bool-cases (same_key k x)) [
      | inl f ↦ cc
      | inr f ↦ rw f (ground (arith, h, lookup-none xs))
    ]

    lookup-dict_set :
        (row : A) (xs : List A)
        → lookup content (same_key k) (dict_set same_key row xs)
          ≡ (if same_key k row then some (content row) else lookup content (same_key k) xs)
    lookup-dict_set row [] = refl
    lookup-dict_set row (y ∷ ys) = elim (Bool-cases (same_key row y)) [
      | inl f ↦ rw f (rw (congruent_right row y k f) (ground arith))
      | inr f ↦ elim (Bool-cases (same_key k y)) [
        | inl g ↦
            let h : same_key k row ≡ false = key.congruent k y row g ∙ key.symmetric y row ∙ f in
            rw (f, g, h) refl
        | inr g ↦ rw (f, g, lookup-dict_set row ys) refl
      ]
    ]

    pub lookup-dict_set_all :
        (rows entries : List A)
        → lookup content (same_key k) (dict_set_all same_key entries rows)
          ≡ first_some (lookup_last content (same_key k) rows) (lookup content (same_key k) entries)
    lookup-dict_set_all [] entries = refl
    lookup-dict_set_all (row ∷ rows) entries =
        rw (lookup-dict_set_all rows (dict_set same_key row entries), lookup-dict_set row entries)
          (ground arith)

    pub lookup-any :
        (v : A) (xs : List A)
        → same_key k v ≡ true
        → any (same_key v) xs ≡ false
        → lookup content (same_key k) xs ≡ none
    lookup-any v xs e h = lookup-none xs (any_congruent k v xs e ∙ h)
