-- ===== src/Auth/Sessions/Laws.antt =====
-- Sign-out and the session check (domain/sessions.py and api/auth/dependencies.py).
use growth_track.Prelude.{
  ℕ, subst, ◌≡◌, sym, ap, ◌∙◌, ◌≢◌, ◌↔◌, inl, inr, true, false, Option, none, some, ==_refl,
  Bool-cases, find?, any,
}
use growth_track.Models.{is_administrator, is_active_user, User}
use growth_track.Session.{World, Env, Outcome, ok}
use growth_track.Persistence.Users.{has_id}
use growth_track.Persistence.Tokens.{has_jti}
use growth_track.Auth.Sessions.{
  AccessTokenClaims, CurrentSession, Access, logout, check_user, get_current_session,
}

-- The users and tokens that admit a session with these claims.
abbrev pub Admits : World → AccessTokenClaims → User → Type 0
Admits w claims u =
    (find? (has_id claims.user_id) w.db.users ≡ some u)
    × (is_administrator u.role ≡ true)
    × (is_active_user u.status ≡ true)
    × (any (has_jti claims.jti) w.db.revoked_tokens ≡ false)

abbrev session_of : CurrentSession → Outcome Access → CurrentSession
session_of s (ok (Access.granted t)) = t
session_of s _ = s

check_user_sound :
    (w : World) (claims : AccessTokenClaims) (s : CurrentSession) (o : Option User)
    → (check_user claims o w).0 ≡ ok (Access.granted s)
    → (o ≡ some s.user)
      × (is_administrator s.user.role ≡ true)
      × (is_active_user s.user.status ≡ true)
      × (any (has_jti claims.jti) w.db.revoked_tokens ≡ false)
      × (s.jti ≡ claims.jti)
unfolding check_user
check_user_sound w claims s none h = cc
check_user_sound w claims s (some u) h = elim (Bool-cases (is_administrator u.role)) [
  | inr a ↦ let h' : ok Access.unauthorized ≡ ok (Access.granted s) = rw a at h in cc
  | inl a ↦ elim (Bool-cases (is_active_user u.status)) [
    | inr b ↦ let h' : ok Access.deactivated ≡ ok (Access.granted s) = rw (a, b) at h in cc
    | inl b ↦ elim (Bool-cases (any (has_jti claims.jti) w.db.revoked_tokens)) [
      | inl c ↦ let h' : ok Access.unauthorized ≡ ok (Access.granted s) = rw (a, b, c) at h in cc
      | inr c ↦
          let h' : ok (Access.granted (record { user = u; jti = claims.jti }))
              ≡ ok (Access.granted s) =
            rw (a, b, c) at h in
          let same : record { user = u; jti = claims.jti } ≡ s = ap (session_of s) h' in
          (
            ap (λ x. some x.user) same,
            subst (λ x. is_administrator x.user.role ≡ true) same a,
            subst (λ x. is_active_user x.user.status ≡ true) same b,
            c,
            sym (ap (λ x. x.jti) same),
          )
    ]
  ]
]

module _ (w : World) (claims : AccessTokenClaims) (s : CurrentSession) where
  -- The check grants exactly the session of a known, active administrator whose token is not
  -- revoked.
  pub get_current_session_iff :
      ((get_current_session (some claims) w).0 ≡ ok (Access.granted s))
      ↔ (Admits w claims s.user × (s.jti ≡ claims.jti))
  unfolding get_current_session check_user
  get_current_session_iff = (
    λ h.
        let (f, a, b, c, j) =
          check_user_sound w claims s (find? (has_id claims.user_id) w.db.users) h in
        ((f, a, b, c), j),
    λ ((f, a, b, c), j).
        rw (f, a, b, c) (ap (λ k. ok (Access.granted (record { user = s.user; jti = k }))) (sym j)),
  )

pub revoked_after :
    (env : Env) (user_id jti : ℕ) (w : World)
    → any (has_jti jti) (logout env user_id jti w).1.db.revoked_tokens ≡ true
unfolding logout
revoked_after env user_id jti w = elim (Bool-cases (any (has_jti jti) w.db.revoked_tokens)) [
  | inl r ↦ rw r (rw r)
  | inr r ↦ rw r (rw (==_refl jti))
]

-- After sign-out no session is granted for the token, whatever user it claims.
logout-denies :
    (env : Env) (user_id : ℕ) (claims : AccessTokenClaims) (w : World) (s : CurrentSession)
    → (get_current_session (some claims) (logout env user_id claims.jti w).1).0
      ≢ ok (Access.granted s)
logout-denies env user_id claims w s h =
    let ((f, a, b, c), j) =
      (get_current_session_iff (logout env user_id claims.jti w).1 claims s).0 h in
    let clash = sym (revoked_after env user_id claims.jti w) ∙ c in cc
