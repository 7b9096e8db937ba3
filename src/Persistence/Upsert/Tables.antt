-- ===== src/Persistence/Upsert/Tables.antt =====
-- The upserts of the three imported tables (adapters/persistence/sales_data.py,
-- brand_performance.py and doctors.py).
use growth_track.Models.{BrandPerformance, Doctor, SalesData}
use growth_track.Session.{World, Env, ok}
use growth_track.Persistence.Upsert.Laws.{upsert-by_key}
use growth_track.Persistence.Upsert.Lookup.{IsKey, IsAssignment, lookup, lookup_last}
use growth_track.Persistence.SalesData
use growth_track.Persistence.BrandPerformance
use growth_track.Persistence.Doctors
use growth_track.Prelude.{
  ℕ, String, ◌≡◌, refl, sym, ap, ◌∙◌, inl, inr, true, List, [], ◌∷◌, arith, str_eq, eq_iff,
  Bool-cases, first_some, all, ℤ,
}

str_eq-symmetric : (s t : String) → str_eq s t ≡ str_eq t s
str_eq-symmetric s t = elim (Bool-cases (str_eq s t)) [
  | inl e ↦ let h : s ≡ t = (eq_iff s t).0 e in e ∙ sym ((eq_iff t s).1 (sym h))
  | inr e ↦ elim (Bool-cases (str_eq t s)) [
    | inl f ↦ let h : t ≡ s = (eq_iff t s).0 f in let g = (eq_iff s t).1 (sym h) in cc
    | inr f ↦ e ∙ sym f
  ]
]

pub text-IsKey : {A : Type 0} (f : A → String) → IsKey (λ (a b : A). str_eq (f a) (f b))
text-IsKey f = record {
  symmetric = λ a b. str_eq-symmetric (f a) (f b);
  congruent = λ a b c e. ap (λ s. str_eq s (f c)) ((eq_iff (f a) (f b)).0 e);
}

pub sales-IsKey : IsKey SalesData.same_team_and_date
sales-IsKey = record { symmetric = λ a b. ground arith; congruent = λ a b c e. ground (arith, e) }

-- What an import brings: all columns but the id.
abbrev pub Figures : Type 0
Figures = ℕ × ℕ × ℤ × ℤ × ℤ

abbrev pub figures : SalesData → Figures
figures r = (r.date, r.team_id, r.sales_amount, r.achievement_pct, r.growth_pct)

pub sales-IsAssignment :
    IsAssignment SalesData.same_team_and_date figures
      (λ r. true)
      SalesData.refresh_sales
      (λ k r. record r { id = k })
sales-IsAssignment = record {
  key_refresh = λ k v old. refl;
  content_refresh = λ v old e.
      let f : old.date ≡ v.date = ground (arith, e) in
      let g : old.team_id ≡ v.team_id = ground (arith, e) in
      ap (λ (k : ℕ × ℕ). (k.0, k.1, v.sales_amount, v.achievement_pct, v.growth_pct))
        (rw (f, g) refl);
  key_set_id = λ k a i. refl;
  content_set_id = λ a i. refl;
  range_set_id = λ a i. refl;
}

all-true : {A : Type 0} (xs : List A) → all (λ x. true) xs ≡ true
all-true [] = refl
all-true (x ∷ xs) = all-true xs

-- The upsert of sales figures always succeeds, and then the table has, for each team and day, the
-- figures of the last of the given rows for it, or what it had if none was given.
pub upsert_sales_last :
    (env : Env) (rows : List SalesData) (w : World)
    → (v : World) × (SalesData.upsert_many env rows w ≡ (ok tt, v))
      × ((k : SalesData)
          → lookup figures (SalesData.same_team_and_date k) v.db.sales_data
            ≡ first_some
                (lookup_last figures (SalesData.same_team_and_date k) rows)
                (lookup figures (SalesData.same_team_and_date k) w.db.sales_data))
unfolding SalesData.upsert_many
upsert_sales_last env [] w = (w, refl, λ k. refl)
upsert_sales_last env (row ∷ rows) w =
    upsert-by_key SalesData.same_team_and_date sales-IsKey figures (λ r. true)
      SalesData.refresh_sales (λ k r. record r { id = k }) sales-IsAssignment (λ d. d.sales_data)
      SalesData.with_sales_data (λ rs d. refl) env (row ∷ rows) w (all-true (row ∷ rows))

abbrev pub brand_figures : BrandPerformance → String × String × ℤ × ℤ × ℤ
brand_figures r = (r.external_brand_id, r.brand_name, r.sales, r.rank, r.growth_pct)

pub brands-IsAssignment :
    IsAssignment BrandPerformance.same_brand brand_figures
      (λ r. Doctors.is_integer r.rank)
      BrandPerformance.refresh_brand
      (λ k r. record r { id = k })
brands-IsAssignment = record {
  key_refresh = λ k v old. refl;
  content_refresh = λ v old e.
      let f : v.external_brand_id ≡ old.external_brand_id =
        (eq_iff v.external_brand_id old.external_brand_id).0 e in
      ap (λ k. (k, v.brand_name, v.sales, v.rank, v.growth_pct)) (sym f);
  key_set_id = λ k a i. refl;
  content_set_id = λ a i. refl;
  range_set_id = λ a i. refl;
}

pub upsert_brands_last :
    (env : Env) (rows : List BrandPerformance) (w : World)
    → all (λ r. Doctors.is_integer r.rank) rows ≡ true
    → (v : World) × (BrandPerformance.upsert_many env rows w ≡ (ok tt, v))
      × ((k : BrandPerformance)
          → lookup brand_figures (BrandPerformance.same_brand k) v.db.brand_performance
            ≡ first_some
                (lookup_last brand_figures (BrandPerformance.same_brand k) rows)
                (lookup brand_figures (BrandPerformance.same_brand k) w.db.brand_performance))
unfolding BrandPerformance.upsert_many
upsert_brands_last env [] w h = (w, refl, λ k. refl)
upsert_brands_last env (row ∷ rows) w h =
    upsert-by_key BrandPerformance.same_brand (text-IsKey (λ r. r.external_brand_id)) brand_figures
      (λ r. Doctors.is_integer r.rank) BrandPerformance.refresh_brand (λ k r. record r { id = k })
      brands-IsAssignment (λ d. d.brand_performance) BrandPerformance.with_brand_performance
      (λ rs d. refl) env (row ∷ rows) w h

abbrev pub doctor_figures : Doctor → String × String × String × ℤ
doctor_figures r = (r.external_doctor_id, r.name, r.territory, r.priority)

pub doctors-IsAssignment :
    IsAssignment Doctors.same_doctor doctor_figures
      (λ r. Doctors.is_integer r.priority)
      Doctors.refresh_doctor
      (λ k r. record r { id = k })
doctors-IsAssignment = record {
  key_refresh = λ k v old. refl;
  content_refresh = λ v old e.
      let f : v.external_doctor_id ≡ old.external_doctor_id =
        (eq_iff v.external_doctor_id old.external_doctor_id).0 e in
      ap (λ k. (k, v.name, v.territory, v.priority)) (sym f);
  key_set_id = λ k a i. refl;
  content_set_id = λ a i. refl;
  range_set_id = λ a i. refl;
}

pub upsert_doctors_last :
    (env : Env) (rows : List Doctor) (w : World)
    → all (λ r. Doctors.is_integer r.priority) rows ≡ true
    → (v : World) × (Doctors.upsert_many env rows w ≡ (ok tt, v))
      × ((k : Doctor)
          → lookup doctor_figures (Doctors.same_doctor k) v.db.doctors
            ≡ first_some
                (lookup_last doctor_figures (Doctors.same_doctor k) rows)
                (lookup doctor_figures (Doctors.same_doctor k) w.db.doctors))
unfolding Doctors.upsert_many
upsert_doctors_last env [] w h = (w, refl, λ k. refl)
upsert_doctors_last env (row ∷ rows) w h =
    upsert-by_key Doctors.same_doctor (text-IsKey (λ r. r.external_doctor_id)) doctor_figures
      (λ r. Doctors.is_integer r.priority) Doctors.refresh_doctor (λ k r. record r { id = k })
      doctors-IsAssignment (λ d. d.doctors) Doctors.with_doctors (λ rs d. refl) env (row ∷ rows) w h
