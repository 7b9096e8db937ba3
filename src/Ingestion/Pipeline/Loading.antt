-- ===== src/Ingestion/Pipeline/Loading.antt =====
-- The Transform and Upsert steps on rows that have been validated.
use growth_track.Models.{RawRow, SalesData, BrandPerformance, Doctor, EntityType}
use growth_track.Session.{Session, World, Env, ok}
use growth_track.RowLaws.{All}
use growth_track.Ingestion.Source.{Source, RejectsEmpty}
use growth_track.Ingestion.Validation.{validate}
use growth_track.Ingestion.Transform.{
  TeamCache, cached, cached_or_created, transform_sales, to_brand_performance, to_doctor,
  transform_each,
}
use growth_track.Ingestion.Transform.Laws.{
  to_sales_data_lem, to_brand_performance_lem, to_doctor_lem, team_lem,
}
use growth_track.Ingestion.Pipeline.{load}
use growth_track.Persistence.Teams.Laws.{NamesUnique, get_or_create_by_name_lem}
use growth_track.Persistence.SalesData
use growth_track.Persistence.BrandPerformance
use growth_track.Persistence.Doctors
use growth_track.Persistence.Doctors.{is_integer}
use growth_track.Persistence.Upsert.Lookup.{lookup, lookup_last}
use growth_track.Persistence.Upsert.Frames.{
  besides_sales, besides_brands, besides_doctors, upsert_sales-keeps, upsert_brands-keeps,
  upsert_doctors-keeps,
}
use growth_track.Persistence.Upsert.Tables.{
  figures, brand_figures, doctor_figures, upsert_sales_last, upsert_brands_last,
  upsert_doctors_last,
}
use growth_track.Prelude.{
  ℕ, suc, ◌+◌, String, subst, ◌≡◌, refl, sym, ap, ◌∙◌, first_some, Bool, true, Option, none, some,
  List, [], ◌∷◌, length, all, strip,
}

-- The imported tables are as they were.
abbrev KeepsImported : World → World → Type 0
KeepsImported w v =
    (v.db.sales_data ≡ w.db.sales_data)
    × (v.db.brand_performance ≡ w.db.brand_performance)
    × (v.db.doctors ≡ w.db.doctors)

-- Of each key a table has the last of the given rows, or what another table had.
abbrev pub HoldsLast : {A C : Type 0} → (A → A → Bool) → (A → C) → List A → List A → List A → Type 0
HoldsLast {A} same_key content rows before after =
    (k : A)
    → lookup content (same_key k) after
      ≡ first_some (lookup_last content (same_key k) rows) (lookup content (same_key k) before)

-- What the two steps do to a world: every row is parsed to one record, and each imported table then
-- has, for each key, the last of the records, or what it had.
abbrev pub Loaded : Env → Source → ℕ → List RawRow → List RawRow → List RawRow → World → Type 0
Loaded env source run_id sales_rows brand_rows doctor_rows w =
    (ss : List SalesData) × (bs : List BrandPerformance) × (ds : List Doctor) × (w1 : World)
    × (w2 : World) × (w3 : World) × (v : World) × (transform_sales env source [] sales_rows w
        ≡ (ok ss, w1))
    × (transform_each (to_brand_performance env source) brand_rows w1 ≡ (ok bs, w2))
    × (transform_each (to_doctor env source) doctor_rows w2 ≡ (ok ds, w3))
    × (length ss ≡ length sales_rows)
    × (length bs ≡ length brand_rows)
    × (length ds ≡ length doctor_rows)
    × (load env source run_id sales_rows brand_rows doctor_rows w
        ≡ (ok (length sales_rows + length brand_rows + length doctor_rows), v))
    × HoldsLast SalesData.same_team_and_date figures ss w.db.sales_data v.db.sales_data
    × HoldsLast BrandPerformance.same_brand brand_figures bs w.db.brand_performance
        v.db.brand_performance
    × HoldsLast Doctors.same_doctor doctor_figures ds w.db.doctors v.db.doctors

-- A loop over rows that are all parsed parses them all.
transform_each_lem :
    {A : Type 0} (f : RawRow → Session A) (in_range : A → Bool) (P : RawRow → Type 0)
    → ((row : RawRow) (w : World)
        → P row
        → (a : A) × (v : World) × (f row w ≡ (ok a, v)) × (in_range a ≡ true) × (v.db ≡ w.db))
    → (rows : List RawRow) (w : World) → All P rows
    → (xs : List A) × (v : World) × (transform_each f rows w ≡ (ok xs, v))
      × (length xs ≡ length rows)
      × (all in_range xs ≡ true)
      × (v.db ≡ w.db)
transform_each_lem f in_range P h [] w q = ([], w, refl, refl, refl, refl)
transform_each_lem f in_range P h (row ∷ rows) w (q, qs) =
    let (a, v, e, r, d) = h row w q in
    let (xs, u, es, n, rs, ds) = transform_each_lem f in_range P h rows v qs in
    (a ∷ xs, u, rw (e, es) refl, ap (λ k. suc k) n, rw (r, rs) refl, ds ∙ d)

moved :
    {A C : Type 0} (same_key : A → A → Bool) (content : A → C) (rows : List A)
    {before before' after after' : List A}
    → before ≡ before'
    → after ≡ after'
    → HoldsLast same_key content rows before after
    → HoldsLast same_key content rows before' after'
moved same_key content rows {before} {before'} {after} {after'} b a h =
    subst (λ x. HoldsLast same_key content rows x after') b
      (subst (λ x. HoldsLast same_key content rows before x) a h)

module _ (env : Env) (source : Source) (rejects : RejectsEmpty source) where
  cached_or_created_lem :
      (name : String) (cache : TeamCache) (found : Option ℕ) (w : World)
      → NamesUnique w.db.teams
      → (k : ℕ) × (c : TeamCache) × (v : World) × (cached_or_created env source name cache found w
          ≡ (ok (k, c), v))
        × NamesUnique v.db.teams
        × KeepsImported w v
  cached_or_created_lem name cache (some k) w h = (k, cache, w, refl, h, (refl, refl, refl))
  cached_or_created_lem name cache none w h =
      let (k, v, e, u, d) = get_or_create_by_name_lem env name w h in
      (
        k,
        (name, k) ∷ cache,
        v,
        rw e refl,
        u,
        (ap (λ x. x.sales_data) d, ap (λ x. x.brand_performance) d, ap (λ x. x.doctors) d),
      )

  transform_sales_lem :
      (cache : TeamCache) (rows : List RawRow) (w : World)
      → All (λ row. validate source EntityType.sales_data row ≡ none) rows
      → NamesUnique w.db.teams
      → (xs : List SalesData) × (v : World) × (transform_sales env source cache rows w ≡ (ok xs, v))
        × (length xs ≡ length rows)
        × NamesUnique v.db.teams
        × KeepsImported w v
  unfolding transform_sales
  transform_sales_lem cache [] w q h = ([], w, refl, refl, h, (refl, refl, refl))
  transform_sales_lem cache (row ∷ rows) w (q, qs) h =
      let (team, e1) = team_lem env source rejects row w q in
      let (k, c, v, e2, u, (a1, b1, d1)) =
        cached_or_created_lem (strip team) cache (cached (strip team) cache) w h in
      let (x, e3) = to_sales_data_lem env source rejects k row v q in
      let (xs, t, e4, n, u', (a2, b2, d2)) =
        transform_sales_lem c rows (record v { calls = suc v.calls }) qs u in
      (x ∷ xs, t, rw (e1, e2, e3, e4) refl, ap (λ m. suc m) n, u', (a2 ∙ a1, b2 ∙ b1, d2 ∙ d1))

  -- If active team names are unique, rows that have passed their validators are all parsed: the two
  -- steps raise nothing, report as many records as there are rows, and leave in each table, for each
  -- key, the last of the parsed records, or what it had if there is none.
  pub load-validated :
      (run_id : ℕ) (sales_rows brand_rows doctor_rows : List RawRow) (w : World)
      → All (λ row. validate source EntityType.sales_data row ≡ none) sales_rows
      → All (λ row. validate source EntityType.brand_performance row ≡ none) brand_rows
      → All (λ row. validate source EntityType.doctors row ≡ none) doctor_rows
      → NamesUnique w.db.teams
      → Loaded env source run_id sales_rows brand_rows doctor_rows w
  unfolding load
  load-validated run_id sales_rows brand_rows doctor_rows w qs qb qd h =
      let (ss, w1, e1, n1, u, (a1, b1, c1)) = transform_sales_lem [] sales_rows w qs h in
      let (bs, w2, e2, n2, rb, k2) =
        transform_each_lem (to_brand_performance env source) (λ r. is_integer r.rank) _
          (to_brand_performance_lem env source rejects) brand_rows w1 qb in
      let (ds, w3, e3, n3, rd, k3) =
        transform_each_lem (to_doctor env source) (λ r. is_integer r.priority) _
          (to_doctor_lem env source rejects) doctor_rows w2 qd in
      let (w4, e4, l4) = upsert_sales_last env ss w3 in
      let (w5, e5, l5) = upsert_brands_last env bs w4 rb in
      let (w6, e6, l6) = upsert_doctors_last env ds w5 rd in
      let k : w3.db ≡ w1.db = k3 ∙ k2 in
      let p4 = ap (λ x. besides_sales x.1.db) (sym e4) ∙ upsert_sales-keeps env ss w3 in
      let p5 = ap (λ x. besides_brands x.1.db) (sym e5) ∙ upsert_brands-keeps env bs w4 in
      let p6 = ap (λ x. besides_doctors x.1.db) (sym e6) ∙ upsert_doctors-keeps env ds w5 in
      let sales_before = ap (λ d. d.sales_data) k ∙ a1 in
      let sales_after = ap (λ x. x.0) p6 ∙ ap (λ x. x.0) p5 in
      let brands_before = ap (λ x. x.0) p4 ∙ ap (λ d. d.brand_performance) k ∙ b1 in
      let brands_after = ap (λ x. x.1) p6 in
      let doctors_before = ap (λ x. x.1) p5 ∙ ap (λ x. x.1) p4 ∙ ap (λ d. d.doctors) k ∙ c1 in
      (
        ss,
        bs,
        ds,
        w1,
        w2,
        w3,
        w6,
        e1,
        e2,
        e3,
        n1,
        n2,
        n3,
        rw (e1, e2, e3, e4, e5, e6, n1, n2, n3) refl,
        moved SalesData.same_team_and_date figures ss sales_before (sym sales_after) l4,
        moved BrandPerformance.same_brand brand_figures bs brands_before (sym brands_after) l5,
        moved Doctors.same_doctor doctor_figures ds doctors_before refl l6,
      )
