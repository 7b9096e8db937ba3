-- ===== src/Auth/Bootstrap/Laws.antt =====
-- Laws of the bootstrap (domain/bootstrap.py).
use growth_track.Prelude.{suc, String, none, some}
use growth_track.Models.{Role, UserStatus, ThemePreference, User}
use growth_track.Session.{World, Env}

module _ (env : Env) (username password : String) (w : World) where
  -- The administrator that a bootstrap writes.
  abbrev new_administrator : User
  new_administrator = record {
    id = env.uuid4 w.calls;
    username = some username;
    hashed_password = some (env.hash (suc w.calls) password);
    role = Role.administrator;
    status = UserStatus.active;
    version = 1;
    created_at = env.now (suc (suc w.calls));
    name = none;
    mobile = none;
    team_id = none;
    failed_login_count = 0;
    locked_until = none;
    theme_preference = ThemePreference.system;
  }
