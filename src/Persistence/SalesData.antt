-- ===== src/Persistence/SalesData.antt =====
-- SqlAlchemySalesDataRepository (adapters/persistence/sales_data.py).
use growth_track.Models.{SalesData}
use growth_track.Session.{Session, return, query, ◌>>=◌, Database, Env}
use growth_track.Persistence.Upsert.{by_key, upsert, with_new_ids}
use growth_track.Prelude.{
  ℕ, Ordering, compare, Bool, true, ◌&&◌, not, List, [], ◌∷◌, leb, ◌==◌, rows_where, sorted, ◌+ℤ◌,
  and_then, ℤ, pos,
}

abbrev pub same_team_and_date : SalesData → SalesData → Bool
same_team_and_date r s = r.date == s.date && r.team_id == s.team_id

abbrev pub with_sales_data : List SalesData → Database → Database
with_sales_data rows d = record d { sales_data = rows }

-- `set_=`.
abbrev pub refresh_sales : SalesData → SalesData → SalesData
refresh_sales r old = record old {
  sales_amount = r.sales_amount;
  achievement_pct = r.achievement_pct;
  growth_pct = r.growth_pct;
}

unfoldable pub upsert_many : Env → List SalesData → Session (Unit {0})
upsert_many env [] = return tt
upsert_many env (row ∷ rows) = do
  values ← with_new_ids env (λ k r. record r { id = k }) (by_key same_team_and_date (row ∷ rows))
  upsert same_team_and_date (λ r. true) refresh_sales (λ d. d.sales_data) with_sales_data values

abbrev pub sum_amounts : List SalesData → ℤ
sum_amounts [] = pos 0
sum_amounts (r ∷ rows) = r.sales_amount +ℤ sum_amounts rows

unfoldable pub sum_amount_in_range : ℕ → ℕ → Session ℤ
sum_amount_in_range start_date end_date =
    query (λ d.
      sum_amounts (rows_where (λ r. leb start_date r.date && leb r.date end_date) d.sales_data))

-- DISTINCT ON (team_id) of the rows in the order of the team and, within it, of the date, the latest
-- first.
abbrev pub first_per_team : List SalesData → List SalesData
first_per_team [] = []
first_per_team (r ∷ rows) = r ∷ rows_where (λ s. not (s.team_id == r.team_id)) (first_per_team rows)

abbrev pub by_team_latest_first : SalesData → SalesData → Ordering
by_team_latest_first r s = and_then (compare r.team_id s.team_id) (compare s.date r.date)

unfoldable pub latest_per_team : Session (List SalesData)
latest_per_team = query (λ d. first_per_team (sorted by_team_latest_first d.sales_data))
