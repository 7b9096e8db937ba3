-- ===== src/Api/Users.antt =====
-- /users (api/recipients/routes.py).
pub mod Laws
use growth_track.Models.{Role, UserStatus, User, Team, OptInConsent}
use growth_track.Session.{Exc, Session, return, raise, ◌>>=◌, ◌>>◌, commit, Env}
use growth_track.Api.Replies.{
  Reply, done, refused, conflict, HttpError, commit_and_refuse, rollback_and_refuse, refuse_listed,
  commit_or, answering, not_found,
}
use growth_track.Persistence.Users
use growth_track.Persistence.Teams
use growth_track.Persistence.Consents
use growth_track.Directory.Users as UserDirectory
use growth_track.Directory.Consents as OptInConsents
use growth_track.Prelude.{
  ℕ, String, Bool, true, false, Option, none, some, List, map, ◌==◌, dict_get,
}

pub record DirectoryUserResponse : Type 0 where
  pub id : ℕ
  pub name : Option String
  pub mobile : Option String
  pub username : Option String
  pub role : Role
  pub status : UserStatus
  pub team_id : Option ℕ
  pub team_name : Option String
  pub version : ℕ
  -- consent_status is "opted_in" if this is present
  pub consent_recorded_at : Option ℕ

abbrev pub mobile_taken : HttpError
mobile_taken = (409, "mobile_taken")

-- `team_names.get(user.team_id) if user.team_id is not None else None`.
abbrev pub name_of_team : Option Team → Option String
name_of_team none = none
name_of_team (some team) = some team.name

abbrev pub team_name_of : List Team → Option ℕ → Option String
team_name_of teams none = none
team_name_of teams (some team_id) = name_of_team (dict_get (λ (t : Team). t.id) team_id teams)

abbrev pub recorded_at : Option OptInConsent → Option ℕ
recorded_at none = none
recorded_at (some consent) = some consent.granted_at

abbrev pub to_directory_user_response :
    User → List Team → Option OptInConsent → DirectoryUserResponse
to_directory_user_response user teams active_consent = record {
  id = user.id;
  name = user.name;
  mobile = user.mobile;
  username = user.username;
  role = user.role;
  status = user.status;
  team_id = user.team_id;
  team_name = team_name_of teams user.team_id;
  version = user.version;
  consent_recorded_at = recorded_at active_consent;
}

abbrev pub team_errors : Exc → Option HttpError
team_errors Exc.mobile_taken = some mobile_taken
team_errors Exc.team_not_found = some not_found
team_errors Exc.team_inactive = some (422, "team_inactive")
team_errors e = none

abbrev pub create_errors : Exc → Option HttpError
create_errors Exc.role_not_allowed = some (422, "role_not_allowed")
create_errors e = team_errors e

abbrev pub update_errors : Exc → Option HttpError
update_errors Exc.user_not_found = some not_found
update_errors Exc.cannot_edit_administrator = some (400, "administrator_not_editable")
update_errors e = team_errors e

abbrev pub remove_errors : Exc → Option HttpError
remove_errors Exc.user_not_found = some not_found
remove_errors Exc.last_administrator_error = some (409, "last_administrator")
remove_errors e = none

abbrev pub grant_errors : Exc → Option HttpError
grant_errors Exc.user_not_found = some not_found
grant_errors Exc.consent_target_not_addressable = some (422, "consent_not_addressable")
grant_errors Exc.consent_already_active = some (409, "consent_already_active")
grant_errors e = none

abbrev pub revoke_errors : Exc → Option HttpError
revoke_errors Exc.user_not_found = some not_found
revoke_errors Exc.consent_target_not_addressable = some (422, "consent_not_addressable")
revoke_errors Exc.consent_not_active = some (409, "consent_not_active")
revoke_errors e = none

-- The user with its team's name and its active consent.
unfoldable pub read_response : User → Session DirectoryUserResponse
unfolding Teams.list_all_full Consents.get_active
read_response user = do
  teams ← Teams.list_all_full
  active_consent ← Consents.get_active user.id
  return (to_directory_user_response user teams active_consent)

-- The response for what the service has read back.
unfoldable pub respond : Option User → Session (Reply DirectoryUserResponse)
unfolding read_response
respond none = raise Exc.attribute_error
respond (some user) = do response ← read_response user; return (done response)

-- The user as it is now, or the answer for one that is gone.
unfoldable pub respond_current : Option User → Session (Reply DirectoryUserResponse)
unfolding read_response
respond_current none = return (refused 404 "not_found")
respond_current (some user) = do response ← read_response user; return (conflict response)

unfoldable pub respond_created : User → Session (Reply DirectoryUserResponse)
unfolding Teams.list_all_full
respond_created user = do
  teams ← Teams.list_all_full
  return (done (to_directory_user_response user teams none))

unfoldable pub list_users : Session (Reply (List DirectoryUserResponse))
unfolding Teams.list_all_full Users.list_all Consents.get_active_by_user_ids
list_users = do
  teams ← Teams.list_all_full
  all_users ← Users.list_all
  active ← Consents.get_active_by_user_ids (map (λ (u : User). u.id) all_users)
  return (
      done (
        map
          (λ (u : User).
            to_directory_user_response u teams
              (dict_get (λ (c : OptInConsent). c.user_id) u.id active))
          all_users))

-- `existing is None or existing.id == exclude_user_id`.
abbrev pub is_available : Option User → Option ℕ → Bool
is_available none exclude_user_id = true
is_available (some existing) none = false
is_available (some existing) (some exclude_user_id) = existing.id == exclude_user_id

unfoldable pub check_mobile_availability : String → Option ℕ → Session (Reply Bool)
unfolding Users.get_by_mobile
check_mobile_availability mobile exclude_user_id = do
  existing ← Users.get_by_mobile mobile
  return (done (is_available existing exclude_user_id))

module _ (env : Env) (races : ℕ → Bool) where
  unfoldable pub create_user :
      String → String → Role → ℕ → ℕ → Session (Reply DirectoryUserResponse)
  unfolding respond_created
  create_user name mobile role team_id current_user_id =
      answering (λ e. refuse_listed (create_errors e))
        (λ user. commit_or races mobile_taken (respond_created user))
        (UserDirectory.create_user env name mobile role team_id current_user_id)

  unfoldable pub update_failed : ℕ → Exc → Session (Reply DirectoryUserResponse)
  unfolding respond_current Users.get_by_id
  update_failed user_id Exc.version_conflict = do
    commit
    current ← Users.get_by_id user_id
    respond_current current
  update_failed user_id e = refuse_listed (update_errors e)

  unfoldable pub update_user :
      ℕ → String → String → ℕ → ℕ → ℕ → Session (Reply DirectoryUserResponse)
  unfolding respond update_failed
  update_user user_id name mobile team_id version current_user_id =
      answering (update_failed user_id) (λ user. commit_or races mobile_taken (respond user))
        (UserDirectory.update_user env user_id name mobile team_id version current_user_id)

  unfoldable pub remove_user : ℕ → ℕ → Session (Reply (Unit {0}))
  remove_user user_id current_user_id =
      answering (λ e. refuse_listed (remove_errors e)) (λ u. commit >> return (done tt))
        (UserDirectory.remove_user env user_id current_user_id)

  -- An IntegrityError may come from the flush or from the commit.
  abbrev pub grant_failed : Exc → Session (Reply (ℕ × ℕ))
  grant_failed Exc.integrity_error = rollback_and_refuse (409, "consent_already_active")
  grant_failed e = refuse_listed (grant_errors e)

  unfoldable pub grant_opt_in_consent : ℕ → ℕ → Session (Reply (ℕ × ℕ))
  grant_opt_in_consent user_id current_user_id =
      answering grant_failed
        (λ consent.
          commit_or races (409, "consent_already_active")
            (return (done (user_id, consent.granted_at))))
        (OptInConsents.grant_consent env user_id current_user_id)

  unfoldable pub revoke_opt_in_consent : ℕ → ℕ → Session (Reply (Unit {0}))
  revoke_opt_in_consent user_id current_user_id =
      answering (λ e. refuse_listed (revoke_errors e)) (λ u. commit >> return (done tt))
        (OptInConsents.revoke_consent env user_id current_user_id)
