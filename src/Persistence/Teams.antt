-- ===== src/Persistence/Teams.antt =====
-- SqlAlchemyTeamRepository (adapters/persistence/teams.py).
pub mod Laws
use growth_track.Prelude.{
  ℕ, ◌+◌, String, Bool, ◌&&◌, Option, List, [], ◌∷◌, map, str_eq, ◌==◌, if◌then◌else◌, rows_where,
  set_where, find?, any, strip, sorted, compare_text,
}
use growth_track.Models.{is_active_team, TeamStatus, Team}
use growth_track.Session.{
  Exc, Session, return, raise, query, external, scalar_one_or_none, write, ◌>>=◌, ◌>>◌, Env,
}

unfoldable pub add : ℕ → String → Session (Unit {0})
add team_id name = write (λ d. record d {
  teams = record { id = team_id; name = name; status = TeamStatus.active; version = 1 } ∷ d.teams;
})

unfoldable pub get_by_id : ℕ → Session (Option Team)
get_by_id team_id = query (λ d. find? (λ t. t.id == team_id) d.teams)

-- The active team with a name: ix_teams_name_active_uq.
abbrev pub holds_name : String → Team → Bool
holds_name name t = str_eq t.name name && is_active_team t.status

unfoldable pub get_by_name : String → Session (Option Team)
get_by_name name = do
  rows ← query (λ d. rows_where (holds_name name) d.teams)
  scalar_one_or_none rows

abbrev pub has_id_and_version : ℕ → ℕ → Team → Bool
has_id_and_version team_id expected_version t = t.id == team_id && t.version == expected_version

unfoldable pub update_name : ℕ → String → ℕ → Session Bool
update_name team_id name expected_version = do
  matched ← query (λ d. any (has_id_and_version team_id expected_version) d.teams)
  write (λ d. record d {
    teams =
        set_where (has_id_and_version team_id expected_version)
          (λ t. record t { name = name; version = t.version + 1 }) d.teams;
  })
  return matched

unfoldable pub deactivate : ℕ → Session (Unit {0})
deactivate team_id = write (λ d. record d {
  teams =
      set_where (λ t. t.id == team_id)
        (λ t. record t { status = TeamStatus.inactive; version = t.version + 1 }) d.teams;
})

-- `result.scalar_one()`.
abbrev pub scalar_one : {A : Type 0} → List A → Session A
scalar_one [] = raise Exc.no_result_found
scalar_one (a ∷ []) = return a
scalar_one (a ∷ b ∷ rest) = raise Exc.multiple_results_found

-- INSERT ... ON CONFLICT (name) WHERE status = 'active' DO NOTHING.
abbrev pub insert_if_new : Team → List Team → List Team
insert_if_new team teams = if any (holds_name team.name) teams then teams else team ∷ teams

unfoldable pub get_or_create_by_name : Env → String → Session ℕ
unfolding strip
get_or_create_by_name env name = do
  let name' = strip name
  id ← external env.uuid4
  write (λ d. record d {
    teams =
        insert_if_new (record { id = id; name = name'; status = TeamStatus.active; version = 1 })
          d.teams;
  })
  rows ← query (λ d. map (λ t. t.id) (rows_where (holds_name name') d.teams))
  scalar_one rows

unfoldable pub list_all : Session (List (ℕ × String))
list_all =
    query (λ d. map (λ t. (t.id, t.name)) (sorted (λ t u. compare_text t.name u.name) d.teams))

-- The order of `list_all_full` is by name too.
unfoldable pub list_all_full : Session (List Team)
list_all_full = query (λ d. sorted (λ t u. compare_text t.name u.name) d.teams)
