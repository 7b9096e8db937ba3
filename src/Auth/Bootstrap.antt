-- ===== src/Auth/Bootstrap.antt =====
-- BootstrapService (domain/bootstrap.py).
pub mod Laws
use growth_track.Prelude.{String, Bool, not, none, some, [], ◌∷◌, if◌then◌else◌}
use growth_track.Models.{Role, UserStatus, ThemePreference, User, Detail}
use growth_track.Session.{Exc, Session, return, raise, external, ◌>>=◌, ◌>>◌, Env}
use growth_track.Persistence.Users
use growth_track.Directory.Audit.{audit_now}

unfoldable pub is_required : Session Bool
unfolding Users.has_any_administrator
is_required = do exists ← Users.has_any_administrator; return (not exists)

module _ (env : Env) where
  unfoldable pub refuse : String → Session User
  unfolding audit_now
  refuse username = do
    audit_now env none "bootstrap.failure" none none
        (some (("username", Detail.text username) ∷ []))
    raise Exc.bootstrap_already_complete

  unfoldable pub create_administrator : String → String → Session User
  unfolding Users.add audit_now
  create_administrator username password = do
    id ← external env.uuid4
    hashed_password ← external (λ k. env.hash k password)
    created_at ← external env.now
    let user : User = record {
      id = id;
      username = some username;
      hashed_password = some hashed_password;
      role = Role.administrator;
      status = UserStatus.active;
      version = 1;
      created_at = created_at;
      name = none;
      mobile = none;
      team_id = none;
      failed_login_count = 0;
      locked_until = none;
      theme_preference = ThemePreference.system;
    }
    Users.add user
    audit_now env (some id) "bootstrap.success" none none none
    return user

  unfoldable pub bootstrap : String → String → Session User
  unfolding Users.acquire_bootstrap_lock is_required refuse create_administrator
  bootstrap username password = do
    Users.acquire_bootstrap_lock
    required ← is_required
    if required then create_administrator username password else refuse username
