-- ===== src/Persistence/Upsert/Frames.antt =====
-- An upsert writes to its own table only (adapters/persistence/sales_data.py, brand_performance.py
-- and doctors.py).
use growth_track.Models.{BrandPerformance, Doctor, SalesData}
use growth_track.Session.{Database, World, Env}
use growth_track.Persistence.Upsert.{by_key}
use growth_track.Persistence.Upsert.Laws.{upsert_many-keeps}
use growth_track.Persistence.Upsert.Tables.{
  figures, brand_figures, doctor_figures, sales-IsKey, text-IsKey, sales-IsAssignment,
  brands-IsAssignment, doctors-IsAssignment,
}
use growth_track.Persistence.SalesData
use growth_track.Persistence.BrandPerformance
use growth_track.Persistence.Doctors
use growth_track.Prelude.{◌≡◌, refl, true, List, [], ◌∷◌}

abbrev pub besides_sales : Database → List BrandPerformance × List Doctor
besides_sales d = (d.brand_performance, d.doctors)

abbrev pub besides_brands : Database → List SalesData × List Doctor
besides_brands d = (d.sales_data, d.doctors)

abbrev pub besides_doctors : Database → List SalesData × List BrandPerformance
besides_doctors d = (d.sales_data, d.brand_performance)

pub upsert_sales-keeps :
    (env : Env) (rows : List SalesData) (w : World)
    → besides_sales (SalesData.upsert_many env rows w).1.db ≡ besides_sales w.db
unfolding SalesData.upsert_many
upsert_sales-keeps env [] w = refl
upsert_sales-keeps env (row ∷ rows) w =
    upsert_many-keeps SalesData.same_team_and_date sales-IsKey figures (λ r. true)
      SalesData.refresh_sales (λ k r. record r { id = k }) sales-IsAssignment (λ d. d.sales_data)
      SalesData.with_sales_data (λ rs d. refl) besides_sales (λ rs d. refl) env
      (by_key SalesData.same_team_and_date (row ∷ rows)) w

pub upsert_brands-keeps :
    (env : Env) (rows : List BrandPerformance) (w : World)
    → besides_brands (BrandPerformance.upsert_many env rows w).1.db ≡ besides_brands w.db
unfolding BrandPerformance.upsert_many
upsert_brands-keeps env [] w = refl
upsert_brands-keeps env (row ∷ rows) w =
    upsert_many-keeps BrandPerformance.same_brand (text-IsKey (λ r. r.external_brand_id))
      brand_figures (λ r. Doctors.is_integer r.rank) BrandPerformance.refresh_brand
      (λ k r. record r { id = k }) brands-IsAssignment (λ d. d.brand_performance)
      BrandPerformance.with_brand_performance (λ rs d. refl) besides_brands (λ rs d. refl) env
      (by_key BrandPerformance.same_brand (row ∷ rows)) w

pub upsert_doctors-keeps :
    (env : Env) (rows : List Doctor) (w : World)
    → besides_doctors (Doctors.upsert_many env rows w).1.db ≡ besides_doctors w.db
unfolding Doctors.upsert_many
upsert_doctors-keeps env [] w = refl
upsert_doctors-keeps env (row ∷ rows) w =
    upsert_many-keeps Doctors.same_doctor (text-IsKey (λ r. r.external_doctor_id)) doctor_figures
      (λ r. Doctors.is_integer r.priority) Doctors.refresh_doctor (λ k r. record r { id = k })
      doctors-IsAssignment (λ d. d.doctors) Doctors.with_doctors (λ rs d. refl) besides_doctors
      (λ rs d. refl) env (by_key Doctors.same_doctor (row ∷ rows)) w
