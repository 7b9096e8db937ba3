-- ===== src/System/SignOut.antt =====
-- Sign-out over the life of the program (api/auth/routes.py, api/auth/dependencies.py).
use growth_track.Models.{is_administrator, is_active_user, User}
use growth_track.Session.{World, ok, resume}
use growth_track.Persistence.Users.{has_id}
use growth_track.Persistence.Tokens.{has_jti}
use growth_track.Auth.Sessions as Sessions
use growth_track.Auth.Sessions.{
  AccessTokenClaims, CurrentSession, Access, granted, check_user, get_current_session,
}
use growth_track.Auth.Sessions.Laws.{get_current_session_iff, revoked_after}
use growth_track.Api.Auth as Auth
use growth_track.System.{Setup, Action, Request, signed_in, act, handle, serve, serve_all}
use growth_track.System.Stable.{IsStable, serve_all-stable}
use growth_track.Prelude.{
  ℕ, ◌≡◌, ◌≢◌, refl, sym, ◌∙◌, subst, inl, inr, true, Option, none, some, List, ◌∷◌, arith,
  Bool-cases, any, find?, if◌then◌else◌,
}

module _ (jti : ℕ) where
  abbrev IsRevoked : List (ℕ × ℕ) → Type 0
  IsRevoked tokens = any (has_jti jti) tokens ≡ true

  revoke-keeps :
      (j at : ℕ) (tokens : List (ℕ × ℕ))
      → IsRevoked tokens
      → IsRevoked (if any (has_jti j) tokens then tokens else (j, at) ∷ tokens)
  revoke-keeps j at tokens h = elim (Bool-cases (any (has_jti j) tokens)) [
    | inl e ↦ rw e h
    | inr e ↦ rw e (ground (arith, h))
  ]

  IsRevoked-IsStable : IsStable (λ l. IsRevoked l.revoked)
  IsRevoked-IsStable = record {
    audit = λ entry l h. h;
    revoke = λ j at l h. revoke-keeps j at l.revoked h;
    add_token = λ token l h. h;
    mark_used = λ id at l h. h;
    insert = λ rows table l e h. h;
    touch = λ p f k l h. h;
  }

-- The session check changes nothing.
check_user-world :
    (claims : AccessTokenClaims) (o : Option User) (w : World) → (check_user claims o w).1 ≡ w
unfolding check_user
check_user-world claims none w = refl
check_user-world claims (some u) w = elim (Bool-cases (is_administrator u.role)) [
  | inr a ↦ rw a
  | inl a ↦ elim (Bool-cases (is_active_user u.status)) [ inr b ↦ rw (a, b) | inl b ↦ rw (a, b) ]
]

get_current_session-world :
    (claims : AccessTokenClaims) (w : World) → (get_current_session (some claims) w).1 ≡ w
unfolding get_current_session
get_current_session-world claims w =
    check_user-world claims (find? (has_id claims.user_id) w.db.users) w

module _ (s : Setup) (w : World) where
  -- The route commits the revocation.
  logout-committed :
      (current : CurrentSession)
      → IsRevoked current.jti (Auth.logout s.env s.tokens current w).1.committed.revoked_tokens
  unfolding Auth.logout Sessions.logout
  logout-committed current = revoked_after s.env current.user.id current.jti w

  signed_out-IsRevoked :
      (claims : AccessTokenClaims) (current : CurrentSession)
      → (get_current_session (some claims) w).0 ≡ ok (granted current)
      → IsRevoked claims.jti
          (serve s (signed_in (some claims) Action.logout) w).committed.revoked_tokens
  unfolding serve handle
  signed_out-IsRevoked claims current h =
      let q = get_current_session-world claims w in
      let same : get_current_session (some claims) w ≡ (ok (granted current), w) =
        λ i. (h i, q i) in
      let jti : current.jti ≡ claims.jti = ((get_current_session_iff w claims current).0 h).1 in
      subst
        (λ x.
          IsRevoked claims.jti
            (resume x (Auth.when_granted (act s Action.logout))).1.committed.revoked_tokens)
        (sym same)
        (subst (λ k. IsRevoked k (Auth.logout s.env s.tokens current w).1.committed.revoked_tokens)
          jti (logout-committed current))

closed :
    (s : Setup) (w : World) (claims : AccessTokenClaims)
    → IsRevoked claims.jti
        (serve s (signed_in (some claims) Action.logout) w).committed.revoked_tokens
    → IsRevoked claims.jti (serve s (signed_in (some claims) Action.logout) w).db.revoked_tokens
unfolding serve
closed s w claims h = h

-- Sign-out lasts: once a sign-out request whose token is granted a session has been served, no session
-- is granted for the token, whatever requests and jobs follow.
pub logout-lasts :
    (s : Setup) (requests : List Request) (w : World) (claims : AccessTokenClaims)
    (current later : CurrentSession)
    → (get_current_session (some claims) w).0 ≡ ok (granted current)
    → (get_current_session
        (some claims)
        (serve_all s (signed_in (some claims) Action.logout ∷ requests) w)).0
      ≢ ok (granted later)
unfolding serve_all
logout-lasts s requests w claims current later h g =
    let v = serve s (signed_in (some claims) Action.logout) w in
    let revoked = signed_out-IsRevoked s w claims current h in
    let held =
      serve_all-stable (λ l. IsRevoked claims.jti l.revoked) (IsRevoked-IsStable claims.jti) s
        requests v (closed s w claims revoked) revoked in
    let ((f, a, b, c), j) = (get_current_session_iff (serve_all s requests v) claims later).0 g in
    let clash = sym held.0 ∙ c in cc
