-- ===== src/Api/Teams.antt =====
-- /teams (api/recipients/routes.py).
use growth_track.Models.{TeamStatus, Team}
use growth_track.Session.{Exc, Session, return, raise, ◌>>=◌, ◌>>◌, commit, Env}
use growth_track.Api.Replies.{
  Reply, done, refused, conflict, HttpError, refuse_listed, commit_or, answering, not_found,
}
use growth_track.Persistence.Teams
use growth_track.Directory.Teams as TeamDirectory
use growth_track.Prelude.{ℕ, String, Bool, Option, none, some, List, map}

pub record TeamResponse : Type 0 where
  pub id : ℕ
  pub name : String
  pub status : TeamStatus
  pub version : ℕ

abbrev pub to_team_response : Team → TeamResponse
to_team_response team = record {
  id = team.id;
  name = team.name;
  status = team.status;
  version = team.version;
}

abbrev pub team_name_taken : HttpError
team_name_taken = (409, "team_name_taken")

abbrev pub create_errors : Exc → Option HttpError
create_errors Exc.team_name_taken = some team_name_taken
create_errors e = none

abbrev pub update_errors : Exc → Option HttpError
update_errors Exc.team_not_found = some not_found
update_errors Exc.team_name_taken = some team_name_taken
update_errors Exc.team_rename_breaks_territory_mapping =
    some (409, "team_rename_breaks_territory_mapping")
update_errors e = none

abbrev pub remove_errors : Exc → Option HttpError
remove_errors Exc.team_not_found = some not_found
remove_errors e = none

-- `_to_team_response(team)` of what the service has read back.
abbrev pub respond : Option Team → Session (Reply TeamResponse)
respond none = raise Exc.attribute_error
respond (some team) = return (done (to_team_response team))

-- The team as it is now, or the answer for one that is gone.
abbrev pub respond_current : Option Team → Session (Reply TeamResponse)
respond_current none = return (refused 404 "not_found")
respond_current (some team) = return (conflict (to_team_response team))

unfoldable pub list_teams : Session (Reply (List TeamResponse))
unfolding Teams.list_all_full
list_teams = do teams ← Teams.list_all_full; return (done (map to_team_response teams))

module _ (env : Env) (races : ℕ → Bool) where
  unfoldable pub create_team : String → ℕ → Session (Reply TeamResponse)
  create_team name current_user_id =
      answering (λ e. refuse_listed (create_errors e))
        (λ team. commit_or races team_name_taken (respond team))
        (TeamDirectory.create_team env name current_user_id)

  unfoldable pub update_failed : ℕ → Exc → Session (Reply TeamResponse)
  unfolding Teams.get_by_id
  update_failed team_id Exc.version_conflict = do
    commit
    current ← Teams.get_by_id team_id
    respond_current current
  update_failed team_id e = refuse_listed (update_errors e)

  unfoldable pub update_team : ℕ → String → ℕ → ℕ → Session (Reply TeamResponse)
  unfolding update_failed
  update_team team_id name version current_user_id =
      answering (update_failed team_id) (λ team. commit_or races team_name_taken (respond team))
        (TeamDirectory.update_team env team_id name version current_user_id)

  unfoldable pub remove_team : ℕ → ℕ → Session (Reply (Unit {0}))
  remove_team team_id current_user_id =
      answering (λ e. refuse_listed (remove_errors e)) (λ u. commit >> return (done tt))
        (TeamDirectory.remove_team env team_id current_user_id)
