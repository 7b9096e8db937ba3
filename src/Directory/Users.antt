-- ===== src/Directory/Users.antt =====
-- UserDirectoryService (domain/recipients.py) and LastAdministratorGuard (domain/administrators.py).
pub mod Removal
pub mod Creation
pub mod Update
use growth_track.Prelude.{
  ℕ, String, Bool, false, ◌&&◌, not, Option, none, some, [], ◌∷◌, leb, ◌==◌, is_some,
}
use growth_track.Models.{
  is_administrator, is_active_user, is_active_team, Role, UserStatus, ThemePreference, User, Team,
  Detail,
}
use growth_track.Session.{Exc, Session, return, raise, external, ◌>>=◌, ◌>>◌, raise_if, when, Env}
use growth_track.Persistence.Users
use growth_track.Persistence.Teams
use growth_track.Persistence.Consents
use growth_track.Directory.Audit.{audit_at, audit_now}

abbrev pub require_user : Option User → Exc → Session User
require_user none e = raise e
require_user (some user) e = return user

abbrev pub require_team : Option Team → Session Team
require_team none = raise Exc.team_not_found
require_team (some team) = return team

-- `existing is not None and existing.id != user_id`.
abbrev pub is_other_user : Option User → ℕ → Bool
is_other_user none user_id = false
is_other_user (some u) user_id = not (u.id == user_id)

-- `target.mobile != mobile`.
abbrev pub differs : Option String → String → Bool
differs m mobile = not (Users.text_is m mobile)

-- LastAdministratorGuard.ensure_can_deactivate.
unfoldable pub ensure_can_deactivate : User → Session (Unit {0})
unfolding Users.acquire_administrator_removal_lock Users.count_active_administrators
ensure_can_deactivate target =
    when (is_administrator target.role && is_active_user target.status) (do
      Users.acquire_administrator_removal_lock
      count ← Users.count_active_administrators
      raise_if (leb count 1) Exc.last_administrator_error)

unfoldable pub ensure_team_active : ℕ → Session (Unit {0})
unfolding Teams.get_by_id
ensure_team_active team_id = do
  found ← Teams.get_by_id team_id
  team ← require_team found
  raise_if (not (is_active_team team.status)) Exc.team_inactive

-- `role.value`.
abbrev pub role_value : Role → String
role_value Role.administrator = "administrator"
role_value Role.sales_user = "sales_user"
role_value Role.manager = "manager"

module _ (env : Env) where
  unfoldable pub create_user : String → String → Role → ℕ → ℕ → Session User
  unfolding ensure_team_active Users.get_by_mobile Users.add audit_at
  create_user name mobile role team_id actor_user_id = do
    raise_if (is_administrator role) Exc.role_not_allowed
    ensure_team_active team_id
    existing ← Users.get_by_mobile mobile
    raise_if (is_some existing) Exc.mobile_taken
    now ← external env.now
    id ← external env.uuid4
    let user : User = record {
      id = id;
      username = none;
      hashed_password = none;
      role = role;
      status = UserStatus.active;
      version = 1;
      created_at = now;
      name = some name;
      mobile = some mobile;
      team_id = some team_id;
      failed_login_count = 0;
      locked_until = none;
      theme_preference = ThemePreference.system;
    }
    Users.add user
    audit_at env now (some actor_user_id) "user.created" (some "User") (some id) (
        some (
          ("name", Detail.text name)
          ∷ ("mobile", Detail.text mobile)
          ∷ ("role", Detail.text (role_value role))
          ∷ []))
    return user

  -- The consent given for the old number is revoked.
  unfoldable pub auto_revoke : ℕ → ℕ → Session (Unit {0})
  unfolding Consents.revoke_active audit_now
  auto_revoke user_id actor_user_id = do
    revoked ← Consents.revoke_active env user_id
    when revoked (
        audit_now env (some actor_user_id) "user.consent_auto_revoked" (some "User") (some user_id)
          (some (("reason", Detail.text "mobile_number_changed") ∷ [])))

  unfoldable pub update_user : ℕ → String → String → ℕ → ℕ → ℕ → Session (Option User)
  unfolding Users.get_by_id ensure_team_active Users.get_by_mobile Users.update_directory_fields
      auto_revoke audit_now
  update_user user_id name mobile team_id expected_version actor_user_id = do
    found ← Users.get_by_id user_id
    target ← require_user found Exc.user_not_found
    raise_if (is_administrator target.role) Exc.cannot_edit_administrator
    raise_if (not (target.version == expected_version)) Exc.version_conflict
    ensure_team_active team_id
    existing ← Users.get_by_mobile mobile
    raise_if (is_other_user existing user_id) Exc.mobile_taken
    updated ← Users.update_directory_fields user_id name mobile team_id expected_version
    raise_if (not updated) Exc.version_conflict
    when (differs target.mobile mobile) (auto_revoke user_id actor_user_id)
    audit_now env (some actor_user_id) "user.updated" (some "User") (some user_id) (
        some (
          ("name", Detail.text name)
          ∷ ("mobile", Detail.text mobile)
          ∷ ("team_id", Detail.uuid team_id)
          ∷ []))
    Users.get_by_id user_id

  unfoldable pub remove_user : ℕ → ℕ → Session (Unit {0})
  unfolding Users.get_by_id ensure_can_deactivate Users.deactivate audit_now
  remove_user user_id actor_user_id = do
    found ← Users.get_by_id user_id
    target ← require_user found Exc.user_not_found
    ensure_can_deactivate target
    Users.deactivate user_id
    audit_now env (some actor_user_id) "user.deactivated" (some "User") (some user_id) none
