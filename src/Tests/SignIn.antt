-- ===== src/Tests/SignIn.antt =====
-- The sign-in theorems on the sample.
use growth_track.Prelude.{◌≡◌, refl, ◌↔◌, some}
use growth_track.Session.{ok}
use growth_track.Tests.Samples.{sample_env, sample_world, admin, deputy}
use growth_track.Persistence.Users.{get_by_username}
use growth_track.Auth.Login.{LockoutPolicy, login}
use growth_track.Auth.Login.Laws.{Answers, verdict, login-verdict}
use growth_track.Auth.PasswordReset.Laws.{Reset, complete_reset_cases}
use growth_track.Auth.Sessions.{AccessTokenClaims, CurrentSession, Access, get_current_session}
use growth_track.Auth.Sessions.Laws.{Admits, get_current_session_iff}

abbrev pub policy : LockoutPolicy
policy = record { threshold = 5; duration = 900000000 }

abbrev pub claims : AccessTokenClaims
claims = record { user_id = 1; jti = 80 }

abbrev pub session : CurrentSession
session = record { user = admin; jti = 80 }

-- The deputy is locked out until 2000, whatever the password.
login-verdict_example :
    Answers
      (some deputy)
      (verdict (some deputy) 1000 (sample_env.verify "secret"))
      (login sample_env policy "deputy" "secret" sample_world).0
unfolding get_by_username
login-verdict_example =
    login-verdict sample_env policy "deputy" "secret" sample_world (some deputy) refl

complete_reset_cases_example : Reset sample_env "token" "fresh" sample_world
complete_reset_cases_example = complete_reset_cases sample_env "token" "fresh" sample_world

get_current_session_iff_example :
    ((get_current_session (some claims) sample_world).0 ≡ ok (Access.granted session))
    ↔ (Admits sample_world claims admin × (session.jti ≡ claims.jti))
get_current_session_iff_example = get_current_session_iff sample_world claims session
