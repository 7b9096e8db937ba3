-- ===== src/Auth/PasswordReset.antt =====
-- PasswordResetService (domain/password_reset.py).
pub mod Laws
use growth_track.Prelude.{
  ℕ, ◌+◌, String, Bool, false, ◌&&◌, not, Option, none, some, leb, if◌then◌else◌, is_none,
}
use growth_track.Models.{User, PasswordResetToken}
use growth_track.Session.{Exc, Session, return, raise, external, ◌>>=◌, ◌>>◌, raise_if, Env}
use growth_track.Persistence.Users
use growth_track.Persistence.Tokens
use growth_track.Directory.Audit.{audit_at}
use growth_track.Auth.Login.{is_eligible}

-- `user is not None`, active and an Administrator.
abbrev pub may_reset : Option User → Bool
may_reset none = false
may_reset (some user) = is_eligible user

-- `token.used_at is not None or token.expires_at <= now`, negated.
abbrev pub is_live : PasswordResetToken → ℕ → Bool
is_live token now = is_none token.used_at && not (leb token.expires_at now)

abbrev pub require_token : Option PasswordResetToken → Session PasswordResetToken
require_token none = raise Exc.invalid_reset_token
require_token (some token) = return token

module _ (env : Env) where
  unfoldable pub issue_token : ℕ → Option User → Session (Option String)
  unfolding Tokens.add audit_at
  issue_token token_ttl none = return none
  issue_token token_ttl (some user) =
      if is_eligible user
      then (do
        raw_token ← external env.token_urlsafe
        now ← external env.now
        id ← external env.uuid4
        Tokens.add (record {
          id = id;
          user_id = user.id;
          token_hash = env.sha256 raw_token;
          expires_at = now + token_ttl;
          used_at = none;
          created_at = now;
        })
        audit_at env now (some user.id) "password_reset.requested" none none none
        return (some raw_token))
      else return none

  unfoldable pub request_reset : ℕ → String → Session (Option String)
  unfolding Users.get_by_username issue_token
  request_reset token_ttl username = do
    user ← Users.get_by_username username
    issue_token token_ttl user

  unfoldable pub complete_reset : String → String → Session (Unit {0})
  unfolding Tokens.get_by_hash Users.get_by_id Tokens.mark_used Users.update_password
      Users.clear_lockout audit_at
  complete_reset raw_token new_password = do
    found ← Tokens.get_by_hash (env.sha256 raw_token)
    now ← external env.now
    token ← require_token found
    raise_if (not (is_live token now)) Exc.invalid_reset_token
    user ← Users.get_by_id token.user_id
    raise_if (not (may_reset user)) Exc.invalid_reset_token
    Tokens.mark_used token.id now
    hashed_password ← external (λ k. env.hash k new_password)
    Users.update_password token.user_id hashed_password
    Users.clear_lockout token.user_id
    audit_at env now (some token.user_id) "password_reset.completed" none none none
