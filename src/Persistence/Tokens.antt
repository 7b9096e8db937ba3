-- ===== src/Persistence/Tokens.antt =====
-- SqlAlchemyRevokedTokenRepository (adapters/persistence/sessions.py) and
-- SqlAlchemyPasswordResetTokenRepository (adapters/persistence/password_reset.py).
use growth_track.Prelude.{
  ℕ, String, Bool, Option, some, ◌∷◌, ◌==◌, str_eq, rows_where, set_where, any, if◌then◌else◌,
}
use growth_track.Models.{PasswordResetToken}
use growth_track.Session.{Session, query, write, scalar_one_or_none, ◌>>=◌}

abbrev pub has_jti : ℕ → ℕ × ℕ → Bool
has_jti jti (key, revoked_at) = key == jti

-- INSERT ... ON CONFLICT DO NOTHING.
unfoldable pub revoke : ℕ → ℕ → Session (Unit {0})
revoke jti revoked_at = write (λ d. record d {
  revoked_tokens =
      if any (has_jti jti) d.revoked_tokens
      then d.revoked_tokens
      else (jti, revoked_at) ∷ d.revoked_tokens;
})

unfoldable pub is_revoked : ℕ → Session Bool
is_revoked jti = query (λ d. any (has_jti jti) d.revoked_tokens)

unfoldable pub add : PasswordResetToken → Session (Unit {0})
add token = write (λ d. record d { password_reset_tokens = token ∷ d.password_reset_tokens })

unfoldable pub get_by_hash : String → Session (Option PasswordResetToken)
get_by_hash token_hash = do
  rows ← query (λ d. rows_where (λ t. str_eq t.token_hash token_hash) d.password_reset_tokens)
  scalar_one_or_none rows

unfoldable pub mark_used : ℕ → ℕ → Session (Unit {0})
mark_used token_id used_at = write (λ d. record d {
  password_reset_tokens =
      set_where (λ t. t.id == token_id) (λ t. record t { used_at = some used_at })
        d.password_reset_tokens;
})
