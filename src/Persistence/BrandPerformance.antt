-- ===== src/Persistence/BrandPerformance.antt =====
-- SqlAlchemyBrandPerformanceRepository (adapters/persistence/brand_performance.py).
use growth_track.Models.{BrandPerformance}
use growth_track.Session.{Session, return, query, ◌>>=◌, Database, Env}
use growth_track.Persistence.Upsert.{by_key, upsert, with_new_ids}
use growth_track.Persistence.Doctors.{is_integer}
use growth_track.Prelude.{Bool, List, [], ◌∷◌, str_eq, sorted, compare_ℤ}

abbrev pub same_brand : BrandPerformance → BrandPerformance → Bool
same_brand r s = str_eq r.external_brand_id s.external_brand_id

abbrev pub with_brand_performance : List BrandPerformance → Database → Database
with_brand_performance rows d = record d { brand_performance = rows }

-- `set_=`.
abbrev pub refresh_brand : BrandPerformance → BrandPerformance → BrandPerformance
refresh_brand r old = record old {
  brand_name = r.brand_name;
  sales = r.sales;
  rank = r.rank;
  growth_pct = r.growth_pct;
}

unfoldable pub upsert_many : Env → List BrandPerformance → Session (Unit {0})
upsert_many env [] = return tt
upsert_many env (row ∷ rows) = do
  values ← with_new_ids env (λ k r. record r { id = k }) (by_key same_brand (row ∷ rows))
  upsert same_brand (λ r. is_integer r.rank) refresh_brand (λ d. d.brand_performance)
      with_brand_performance values

unfoldable pub list_all : Session (List BrandPerformance)
list_all = query (λ d. sorted (λ r s. compare_ℤ r.rank s.rank) d.brand_performance)
