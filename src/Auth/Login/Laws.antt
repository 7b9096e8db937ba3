-- ===== src/Auth/Login/Laws.antt =====
-- What a login answers (AuthenticationService.login in domain/auth.py), against a table of verdicts.
use growth_track.Prelude.{
  ℕ, suc, ◌-◌, ◌≤◌, String, subst, ◌≡◌, refl, ◌∙◌, ◌⊎◌, inl, inr, Bool, true, false, ◌&&◌, not,
  Option, none, some, arith, ltb, if◌then◌else◌, Bool-cases,
}
use growth_track.Models.{User}
use growth_track.Session.{Exc, World, Env, Outcome, ok, raised}
use growth_track.Persistence.Users.{get_by_username}
use growth_track.Auth.Login.{
  LockoutPolicy, is_eligible, retry_after, has_lockout_state, check_lockout, count_failure, settle,
  authenticate_user, authenticate, finish_login, login,
}

pub data Verdict : Type 0 where
  welcome locked_out invalid : Verdict

-- Whether a lock is live.
abbrev pub is_live_lock : Option ℕ → ℕ → Bool
is_live_lock none now = false
is_live_lock (some locked_until) now = ltb now locked_until

-- What the answer should be, by the user with the name, the clock and the password check.
abbrev pub verdict : Option User → ℕ → (Option String → Bool) → Verdict
verdict none now password_ok = Verdict.invalid
verdict (some user) now password_ok =
    if not (is_eligible user)
    then Verdict.invalid
    else (if is_live_lock user.locked_until now
        then Verdict.locked_out
        else (if password_ok user.hashed_password then Verdict.welcome else Verdict.invalid))

-- The answer agrees with a verdict.
abbrev pub Answers : Option User → Verdict → Outcome User → Type 0
Answers found Verdict.welcome o =
    (u : User) × (v : User) × (found ≡ some u) × (o ≡ ok v) × (v.id ≡ u.id)
Answers found Verdict.locked_out o =
    (seconds : ℕ) × (o ≡ raised (Exc.account_locked seconds)) × (1 ≤ seconds)
Answers found Verdict.invalid o = o ≡ raised Exc.invalid_credentials

-- The result of `authenticate` agrees with a verdict.
abbrev Decides : User → Verdict → Outcome (Option User) → Type 0
Decides u Verdict.welcome o = (v : User) × (o ≡ ok (some v)) × (v.id ≡ u.id)
Decides u Verdict.locked_out o =
    (seconds : ℕ) × (o ≡ raised (Exc.account_locked seconds)) × (1 ≤ seconds)
Decides u Verdict.invalid o = o ≡ ok none

Decides-id :
    (u v : User)
    → v.id ≡ u.id
    → (x : Verdict) (o : Outcome (Option User)) → Decides v x o
    → Decides u x o
Decides-id u v same Verdict.welcome o (t, e, id) = (t, e, id ∙ same)
Decides-id u v same Verdict.locked_out o h = h
Decides-id u v same Verdict.invalid o h = h

verdict-unlocked :
    (u v : User) (now : ℕ) (password_ok : Option String → Bool)
    → is_eligible u && is_live_lock u.locked_until now ≡ false
    → is_eligible v ≡ is_eligible u
    → v.hashed_password ≡ u.hashed_password
    → (if not (is_eligible v)
        then Verdict.invalid
        else (if password_ok v.hashed_password then Verdict.welcome else Verdict.invalid))
      ≡ verdict (some u) now password_ok
verdict-unlocked u v now password_ok c eligible hash = elim (Bool-cases (is_eligible u)) [
  | inr e ↦ rw (eligible, e)
  | inl e ↦
      let l : is_live_lock u.locked_until now ≡ false = rw e at c in rw (eligible, hash) (rw (e, l))
]

retry_after-positive : (m : ℕ) → 1 ≤ retry_after m
unfolding retry_after
retry_after-positive m = ground arith

module _ (env : Env) (policy : LockoutPolicy) where
  count_failure-ok :
      (u : User) (now : ℕ) (w : World)
      → (w' : World) × (count_failure env policy u now w ≡ (ok tt, w'))
  unfolding count_failure
  count_failure-ok u now w = ((count_failure env policy u now w).1, ground arith)

  settle_verdict :
      (u : User) (now : ℕ) (b : Bool) (w : World)
      → Decides u
          (if not (is_eligible u)
            then Verdict.invalid
            else (if b then Verdict.welcome else Verdict.invalid))
          (settle env policy u now b w).0
  unfolding settle
  settle_verdict u now true w = elim (Bool-cases (is_eligible u)) [
    | inl e ↦ elim (Bool-cases (has_lockout_state u)) [
      | inl s ↦ rw (e, s) (u, refl, refl)
      | inr s ↦ rw (e, s) (u, refl, refl)
    ]
    | inr e ↦ rw e
  ]
  settle_verdict u now false w = elim (Bool-cases (is_eligible u)) [
    | inl e ↦ let (w', ran) = count_failure-ok u now w in rw (e, ran)
    | inr e ↦ rw e
  ]

  check_lockout_verdict :
      (u : User) (now : ℕ) (w : World) (lock : Option ℕ)
      → (is_eligible u && is_live_lock lock now ≡ true)
          × ((seconds : ℕ) × (check_lockout env policy u now lock w
                ≡ (raised (Exc.account_locked seconds), w))
              × (1 ≤ seconds))
        ⊎ (is_eligible u && is_live_lock lock now ≡ false)
          × ((v : User) × (w' : World) × (check_lockout env policy u now lock w ≡ (ok v, w'))
              × (v.id ≡ u.id)
              × (is_eligible v ≡ is_eligible u)
              × (v.hashed_password ≡ u.hashed_password))
  unfolding check_lockout
  check_lockout_verdict u now w none = inr (ground arith, (u, w, refl, refl, refl, refl))
  check_lockout_verdict u now w (some t) = elim (Bool-cases (ltb now t)) [
    | inl l ↦ elim (Bool-cases (is_eligible u)) [
      | inl e ↦ inl (rw (l, e), (retry_after (t - now), rw (l, e), retry_after-positive (t - now)))
      | inr e ↦ inr (rw (l, e), (u, w, rw (l, e), refl, refl, refl))
    ]
    | inr l ↦ inr (
      ground arith,
      (
        record u { failed_login_count = 0; locked_until = none },
        (check_lockout env policy u now (some t) w).1,
        rw l,
        refl,
        refl,
        refl,
      ),
    )
  ]

  finish-Answers :
      (u : User) (username : String) (v : Verdict) (x : Outcome (Option User) × World)
      → Decides u v x.0
      → Answers (some u) v (finish_login env policy username x.0 x.1).0
  unfolding finish_login
  finish-Answers u username Verdict.welcome x (v, e, id) = rw e (u, v, refl, refl, id)
  finish-Answers u username Verdict.locked_out x (seconds, e, p) = rw e (seconds, refl, p)
  finish-Answers u username Verdict.invalid x e = rw e

  decide :
      (u : User) (password : String) (w : World)
      → Decides u
          (verdict (some u) (env.now w.calls) (env.verify password))
          (authenticate_user env policy password (some u) w).0
  unfolding authenticate_user
  decide u password w =
      elim (check_lockout_verdict u (env.now w.calls) (record w { calls = suc w.calls })
        u.locked_until) [
          | inl (c, (seconds, ran, positive)) ↦
              let e : is_eligible u ≡ true = ground arith in
              let l : is_live_lock u.locked_until (env.now w.calls) ≡ true = ground arith in
              rw (e, l, ran) (seconds, refl, positive)
          | inr (c, (v, w', ran, same, eligible, hash)) ↦
              let s =
                Decides-id u v same _ _
                  (settle_verdict v (env.now w.calls) (env.verify password v.hashed_password) w') in
              let agree =
                verdict-unlocked u v (env.now w.calls) (env.verify password) c eligible hash in
              rw ran (
                subst
                  (λ x.
                    Decides u x
                      (settle env policy v (env.now w.calls) (env.verify password v.hashed_password)
                        w').0)
                  agree s)
        ]

  -- A login answers as the verdict says. An unknown name, an account that is inactive or no
  -- administrator's, and a wrong password on an unlocked account get the same error. A live lock
  -- on an eligible account gets account_locked with at least one second to wait, whatever the
  -- password. A right password on an eligible account without a live lock gets that user.
  pub login-verdict :
      (username password : String) (w : World) (found : Option User)
      → get_by_username username w ≡ (ok found, w)
      → Answers found
          (verdict found (env.now w.calls) (env.verify password))
          (login env policy username password w).0
  unfolding login authenticate authenticate_user finish_login
  login-verdict username password w none g = rw g
  login-verdict username password w (some u) g = rw g (
      finish-Answers u username _ (authenticate_user env policy password (some u) w)
        (decide u password w))
