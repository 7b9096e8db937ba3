-- ===== src/Auth/Login.antt =====
-- AuthenticationService (domain/auth.py). A timedelta is a number of microseconds.
pub mod Laws
use growth_track.Prelude.{
  ℕ, ◌+◌, ◌-◌, ◌/◌, max, String, Bool, ◌&&◌, ◌||◌, not, Option, none, some, [], ◌∷◌, ltb, leb, ◌==◌,
  if◌then◌else◌, is_some,
}
use growth_track.Models.{is_administrator, is_active_user, User, Detail}
use growth_track.Session.{
  Exc, Session, return, raise, external, ◌>>=◌, ◌>>◌, when, Env, Outcome, ok, raised,
}
use growth_track.Persistence.Users
use growth_track.Directory.Audit.{audit_at, audit_now}

-- lockout_threshold and lockout_duration.
pub record LockoutPolicy : Type 0 where
  pub threshold : ℕ
  pub duration : ℕ

-- `user.status == UserStatus.ACTIVE and user.role == Role.ADMINISTRATOR`.
abbrev pub is_eligible : User → Bool
is_eligible user = is_active_user user.status && is_administrator user.role

-- `max(1, math.ceil(seconds))` of a number of microseconds.
unfoldable pub retry_after : ℕ → ℕ
retry_after microseconds = max 1 ((microseconds + 999999) / 1000000)

-- `if user.failed_login_count or user.locked_until is not None`.
abbrev pub has_lockout_state : User → Bool
has_lockout_state user = not (user.failed_login_count == 0) || is_some user.locked_until

module _ (env : Env) (policy : LockoutPolicy) where
  -- The lockout check: a live lock stops an eligible account, a past one is cleared. The result is
  -- the user as the rest of the method sees it.
  unfoldable pub check_lockout : User → ℕ → Option ℕ → Session User
  unfolding retry_after Users.clear_lockout
  check_lockout user now none = return user
  check_lockout user now (some locked_until) =
      if ltb now locked_until
      then (if is_eligible user
          then raise (Exc.account_locked (retry_after (locked_until - now)))
          else return user)
      else (do
        Users.clear_lockout user.id
        return (record user { failed_login_count = 0; locked_until = none }))

  -- A wrong password on an eligible account is counted, and locks it at the threshold.
  unfoldable pub count_failure : User → ℕ → Session (Unit {0})
  unfolding Users.increment_failed_login_count Users.lock_until audit_at
  count_failure user now = do
    new_count ← Users.increment_failed_login_count user.id
    when (leb policy.threshold new_count) (do
      Users.lock_until user.id (now + policy.duration)
      audit_at env now (some user.id) "account.locked" none none
          (some (("failed_login_count", Detail.number new_count) ∷ [])))

  -- What follows the password check.
  unfoldable pub settle : User → ℕ → Bool → Session (Option User)
  unfolding count_failure Users.clear_lockout
  settle user now password_ok = do
    when (not password_ok && is_eligible user) (count_failure user now)
    if not password_ok || not (is_eligible user)
        then return none
        else (do when (has_lockout_state user) (Users.clear_lockout user.id); return (some user))

  unfoldable pub authenticate_user : String → Option User → Session (Option User)
  unfolding check_lockout settle
  authenticate_user password none = return none
  authenticate_user password (some user) = do
    now ← external env.now
    checked ← check_lockout user now user.locked_until
    settle checked now (env.verify password checked.hashed_password)

  unfoldable pub authenticate : String → String → Session (Option User)
  unfolding Users.get_by_username authenticate_user
  authenticate username password = do
    user ← Users.get_by_username username
    authenticate_user password user

  -- The branches of `login` on what `authenticate` did.
  unfoldable pub finish_login : String → Outcome (Option User) → Session User
  unfolding audit_now
  finish_login username (raised (Exc.account_locked seconds)) = do
    audit_now env none "login.failure" none none
        (some (("username", Detail.text username) ∷ ("reason", Detail.text "locked") ∷ []))
    raise (Exc.account_locked seconds)
  finish_login username (raised e) = raise e
  finish_login username (ok none) = do
    audit_now env none "login.failure" none none (some (("username", Detail.text username) ∷ []))
    raise Exc.invalid_credentials
  finish_login username (ok (some user)) = do
    audit_now env (some user.id) "login.success" none none none
    return user

  unfoldable pub login : String → String → Session User
  unfolding authenticate finish_login
  login username password w =
      let (outcome, w') = authenticate username password w in finish_login username outcome w'
