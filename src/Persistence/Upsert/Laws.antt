-- ===== src/Persistence/Upsert/Laws.antt =====
-- What an INSERT of many rows with ON CONFLICT DO UPDATE leaves in a table, after a dict by the
-- conflict key.
use growth_track.Persistence.Upsert.{
  dict_set, dict_set_all, by_key, has_duplicates, put_row, put_rows, upsert, with_new_ids,
}
use growth_track.Session.{◌>>=◌, Database, World, Env, ok}
use growth_track.Prelude.{
  ℕ, suc, ◌+◌, ◌≡◌, refl, sym, ◌∙◌, inl, inr, Bool, true, false, some, List, [], ◌∷◌, arith,
  if◌then◌else◌, Bool-cases, first_some, length, set_where, any, all,
}
use growth_track.Persistence.Upsert.Lookup.{
  lookup, lookup_last, congruent_right, has_duplicates-dict_set_all, lookup-dict_set_all,
  lookup-any, IsKey, IsAssignment,
}

module _ {A C : Type 0} (same_key : A → A → Bool) (key : IsKey same_key) (content : A → C)
    (in_range : A → Bool) (refresh : A → A → A) (set_id : ℕ → A → A)
    (law : IsAssignment same_key content in_range refresh set_id) where
  lookup-set_other :
      (k v : A) (table : List A)
      → same_key k v ≡ false
      → lookup content (same_key k) (set_where (same_key v) (refresh v) table)
        ≡ lookup content (same_key k) table
  lookup-set_other k v [] e = refl
  lookup-set_other k v (y ∷ ys) e = elim (Bool-cases (same_key v y)) [
    | inl f ↦
        let g : same_key k y ≡ false = sym (congruent_right same_key key v y k f) ∙ e in
        rw (f, law.key_refresh k v y, g, lookup-set_other k v ys e) refl
    | inr f ↦ rw (f, lookup-set_other k v ys e) refl
  ]

  lookup-set_same :
      (k v : A) (table : List A)
      → same_key k v ≡ true
      → any (same_key v) table ≡ true
      → lookup content (same_key k) (set_where (same_key v) (refresh v) table) ≡ some (content v)
  lookup-set_same k v [] e h = cc
  lookup-set_same k v (y ∷ ys) e h = elim (Bool-cases (same_key v y)) [
    | inl f ↦
        let g : same_key k y ≡ true = sym (congruent_right same_key key v y k f) ∙ e in
        rw (f, law.key_refresh k v y, g, law.content_refresh v y f) refl
    | inr f ↦
        let g : same_key k y ≡ false = key.congruent k v y e ∙ f in
        rw (f, g, lookup-set_same k v ys e (ground (arith, h, f))) refl
  ]

  lookup-put_row :
      (k v : A) (table : List A)
      → lookup content (same_key k) (put_row same_key refresh v table)
        ≡ (if same_key k v then some (content v) else lookup content (same_key k) table)
  lookup-put_row k v table = elim (Bool-cases (any (same_key v) table)) [
    | inl e ↦ elim (Bool-cases (same_key k v)) [
      | inl f ↦ rw (e, lookup-set_same k v table f e, f) refl
      | inr f ↦ rw (e, lookup-set_other k v table f, f) refl
    ]
    | inr e ↦ rw e refl
  ]

  lookup-put_rows :
      (k : A) (values table : List A)
      → has_duplicates same_key values ≡ false
      → lookup content (same_key k) (put_rows same_key refresh values table)
        ≡ first_some (lookup content (same_key k) values) (lookup content (same_key k) table)
  lookup-put_rows k [] table h = refl
  lookup-put_rows k (v ∷ values) table h = elim (Bool-cases (same_key k v)) [
    | inl e ↦
        let unique : any (same_key v) values ≡ false = ground (arith, h) in
        rw
          (
            lookup-put_rows k values (put_row same_key refresh v table) (ground (arith, h)),
            lookup-put_row k v table,
            lookup-any same_key key content k v values e unique,
            e,
          )
          refl
    | inr e ↦
        rw
          (
            lookup-put_rows k values (put_row same_key refresh v table) (ground (arith, h)),
            lookup-put_row k v table,
            e,
          )
          refl
  ]

  -- The rows with their new ids, of which the first is the n-th.
  abbrev renamed : (ℕ → ℕ) → ℕ → List A → List A
  renamed uuid4 n [] = []
  renamed uuid4 n (x ∷ xs) = set_id (uuid4 n) x ∷ renamed uuid4 (suc n) xs

  lookup-renamed :
      (uuid4 : ℕ → ℕ) (n : ℕ) (k : A) (xs : List A)
      → lookup content (same_key k) (renamed uuid4 n xs) ≡ lookup content (same_key k) xs
  lookup-renamed uuid4 n k [] = refl
  lookup-renamed uuid4 n k (x ∷ xs) =
      rw
        (
          law.key_set_id k x (uuid4 n),
          law.content_set_id x (uuid4 n),
          lookup-renamed uuid4 (suc n) k xs,
        )
        refl

  any-renamed :
      (uuid4 : ℕ → ℕ) (n : ℕ) (k : A) (xs : List A)
      → any (same_key k) (renamed uuid4 n xs) ≡ any (same_key k) xs
  any-renamed uuid4 n k [] = refl
  any-renamed uuid4 n k (x ∷ xs) =
      rw (law.key_set_id k x (uuid4 n), any-renamed uuid4 (suc n) k xs) refl

  any-set_id : (i : ℕ) (x : A) (xs : List A) → any (same_key (set_id i x)) xs ≡ any (same_key x) xs
  any-set_id i x [] = refl
  any-set_id i x (y ∷ ys) =
      let e = key.symmetric (set_id i x) y ∙ law.key_set_id y x i ∙ key.symmetric y x in
      rw (e, any-set_id i x ys) refl

  has_duplicates-renamed :
      (uuid4 : ℕ → ℕ) (n : ℕ) (xs : List A)
      → has_duplicates same_key (renamed uuid4 n xs) ≡ has_duplicates same_key xs
  has_duplicates-renamed uuid4 n [] = refl
  has_duplicates-renamed uuid4 n (x ∷ xs) =
      rw
        (
          any-set_id (uuid4 n) x (renamed uuid4 (suc n) xs),
          any-renamed uuid4 (suc n) x xs,
          has_duplicates-renamed uuid4 (suc n) xs,
        )
        refl

  all-renamed :
      (uuid4 : ℕ → ℕ) (n : ℕ) (xs : List A) → all in_range (renamed uuid4 n xs) ≡ all in_range xs
  all-renamed uuid4 n [] = refl
  all-renamed uuid4 n (x ∷ xs) =
      rw (law.range_set_id x (uuid4 n), all-renamed uuid4 (suc n) xs) refl

  all-dict_set :
      (row : A) (xs : List A)
      → in_range row ≡ true
      → all in_range xs ≡ true
      → all in_range (dict_set same_key row xs) ≡ true
  all-dict_set row [] e h = rw e refl
  all-dict_set row (y ∷ ys) e h = elim (Bool-cases (same_key row y)) [
    | inl f ↦ rw (f, e) (ground (arith, h))
    | inr f ↦ rw f (ground (arith, h, all-dict_set row ys e))
  ]

  all-dict_set_all :
      (rows entries : List A)
      → all in_range rows ≡ true
      → all in_range entries ≡ true
      → all in_range (dict_set_all same_key entries rows) ≡ true
  all-dict_set_all [] entries e h = h
  all-dict_set_all (row ∷ rows) entries e h =
      all-dict_set_all rows (dict_set same_key row entries) (ground (arith, e))
        (all-dict_set row entries (ground (arith, e)) h)

  with_new_ids_lem :
      (env : Env) (rows : List A) (w : World)
      → with_new_ids env set_id rows w
        ≡ (ok (renamed env.uuid4 w.calls rows), record w { calls = length rows + w.calls })
  with_new_ids_lem env [] w = let n : 0 + w.calls ≡ w.calls = ground arith in rw n refl
  with_new_ids_lem env (row ∷ rows) w =
      let n : length rows + suc w.calls ≡ suc (length rows) + w.calls = ground arith in
      rw (with_new_ids_lem env rows (record w { calls = suc w.calls }), n) refl

  module _ (table : Database → List A) (with_table : List A → Database → Database)
      (kept : (rows : List A) (d : Database) → table (with_table rows d) ≡ rows) where
    -- The statement with the values of a dict by the conflict key: it is not refused, and each key
    -- then has the content of the last of the rows with that key, or what it had.
    pub upsert-by_key :
        (env : Env) (rows : List A) (w : World)
        → all in_range rows ≡ true
        → (v : World) × ((with_new_ids env set_id (by_key same_key rows)
                >>= upsert same_key in_range refresh table with_table)
              w
            ≡ (ok tt, v))
          × ((k : A)
              → lookup content (same_key k) (table v.db)
                ≡ first_some
                    (lookup_last content (same_key k) rows)
                    (lookup content (same_key k) (table w.db)))
    upsert-by_key env rows w h =
        let values = renamed env.uuid4 w.calls (by_key same_key rows) in
        let in_ranges : all in_range values ≡ true =
          all-renamed env.uuid4 w.calls (by_key same_key rows) ∙ all-dict_set_all rows [] h refl in
        let unique : has_duplicates same_key values ≡ false =
          has_duplicates-renamed env.uuid4 w.calls (by_key same_key rows)
          ∙ has_duplicates-dict_set_all same_key key rows [] refl in
        (
          record w {
            calls = length (by_key same_key rows) + w.calls;
            db = with_table (put_rows same_key refresh values (table w.db)) w.db;
          },
          rw (with_new_ids_lem env (by_key same_key rows) w, in_ranges, unique) refl,
          λ k.
              rw
                (
                  kept (put_rows same_key refresh values (table w.db)) w.db,
                  lookup-put_rows k values (table w.db) unique,
                  lookup-renamed env.uuid4 w.calls k (by_key same_key rows),
                  lookup-dict_set_all same_key key content k rows [],
                )
                (ground arith),
        )

    -- What the write keeps of the tables, the statement keeps, whether it is refused or not.
    module _ {B : Type 0} (g : Database → B)
        (keeps : (rows : List A) (d : Database) → g (with_table rows d) ≡ g d) where
      upsert-keeps :
          (values : List A) (w : World)
          → g (upsert same_key in_range refresh table with_table values w).1.db ≡ g w.db
      upsert-keeps values w = elim (Bool-cases (all in_range values)) [
        | inr e ↦ rw e refl
        | inl e ↦ elim (Bool-cases (has_duplicates same_key values)) [
          | inl d ↦ rw (e, d) refl
          | inr d ↦ rw (e, d) (keeps (put_rows same_key refresh values (table w.db)) w.db)
        ]
      ]

      pub upsert_many-keeps :
          (env : Env) (rows : List A) (w : World)
          → g
              ((with_new_ids env set_id rows >>= upsert same_key in_range refresh table with_table)
                w).1.db
            ≡ g w.db
      upsert_many-keeps env rows w = rw (with_new_ids_lem env rows w) (
          upsert-keeps (renamed env.uuid4 w.calls rows)
            (record w { calls = length rows + w.calls }))
