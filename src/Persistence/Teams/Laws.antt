-- ===== src/Persistence/Teams/Laws.antt =====
-- `get_or_create_by_name` (adapters/persistence/teams.py).
use growth_track.RowLaws.{count_where-rows_where, any-count_where}
use growth_track.Models.{is_active_team, TeamStatus, Team}
use growth_track.Session.{World, Env, ok}
use growth_track.Persistence.Teams.{holds_name, insert_if_new, scalar_one, get_or_create_by_name}
use growth_track.Prelude.{
  ℕ, suc, ◌≤◌, String, subst, ◌≡◌, refl, ap, ◌∙◌, inl, inr, true, List, [], ◌∷◌, map, arith, str_eq,
  eq_iff, Bool-cases, length, rows_where, any, count_where, strip,
}

-- No name is held by two active teams.
abbrev pub NamesUnique : List Team → Type 0
NamesUnique teams = (name : String) → count_where (holds_name name) teams ≤ 1

length-map : {A B : Type 0} (f : A → B) (xs : List A) → length (map f xs) ≡ length xs
length-map f [] = refl
length-map f (x ∷ xs) = ap (λ n. suc n) (length-map f xs)

scalar_one_lem :
    {A : Type 0} (xs : List A) (w : World) → length xs ≡ 1 → (a : A) × (scalar_one xs w ≡ (ok a, w))
scalar_one_lem [] w h = ground (arith, h)
scalar_one_lem (a ∷ []) w h = (a, refl)
scalar_one_lem (a ∷ b ∷ xs) w h = ground (arith, h)

module _ (team : Team) (teams : List Team) (active : is_active_team team.status ≡ true)
    (h : NamesUnique teams) where
  insert_if_new-NamesUnique : NamesUnique (insert_if_new team teams)
  insert_if_new-NamesUnique name = elim (Bool-cases (any (holds_name team.name) teams)) [
    | inl e ↦ rw e (h name)
    | inr e ↦
        let none_yet : count_where (holds_name team.name) teams ≡ 0 =
          ground (arith, any-count_where (holds_name team.name) teams, e) in
        elim (Bool-cases (str_eq team.name name)) [
          | inl f ↦
              let same : count_where (holds_name name) teams ≡ 0 =
                subst (λ s. count_where (holds_name s) teams ≡ 0) ((eq_iff team.name name).0 f)
                  none_yet in
              rw (e, f, active, same) (omega arith)
          | inr f ↦ rw (e, f) (ground (arith, h name))
        ]
  ]

  insert_if_new-present : count_where (holds_name team.name) (insert_if_new team teams) ≡ 1
  insert_if_new-present = elim (Bool-cases (any (holds_name team.name) teams)) [
    | inl e ↦ rw e (ground (arith, any-count_where (holds_name team.name) teams, e, h team.name))
    | inr e ↦
        let none_yet : count_where (holds_name team.name) teams ≡ 0 =
          ground (arith, any-count_where (holds_name team.name) teams, e) in
        rw (e, (eq_iff team.name team.name).1 refl, active, none_yet) (omega arith)
  ]

-- With unique names, the team of a name is found or created, and the names stay unique.
pub get_or_create_by_name_lem :
    (env : Env) (name : String) (w : World)
    → NamesUnique w.db.teams
    → (k : ℕ) × (v : World) × (get_or_create_by_name env name w ≡ (ok k, v))
      × NamesUnique v.db.teams
      × (v.db ≡ record w.db { teams = v.db.teams })
unfolding get_or_create_by_name
get_or_create_by_name_lem env name w h =
    let team : Team = record {
      id = env.uuid4 w.calls;
      name = strip name;
      status = TeamStatus.active;
      version = 1;
    } in
    let teams = insert_if_new team w.db.teams in
    let v : World = record w { calls = suc w.calls; db = record w.db { teams = teams } } in
    let rows = map (λ t. t.id) (rows_where (holds_name (strip name)) teams) in
    let one : length rows ≡ 1 =
      length-map (λ t. t.id) (rows_where (holds_name (strip name)) teams)
      ∙ count_where-rows_where (holds_name (strip name)) teams
      ∙ insert_if_new-present team w.db.teams refl h in
    let (k, e) = scalar_one_lem rows v one in
    (k, v, e, insert_if_new-NamesUnique team w.db.teams refl h, refl)
