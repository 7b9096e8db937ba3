-- ===== src/Auth/PasswordReset/Laws.antt =====
-- Laws of the password reset (domain/password_reset.py).
use growth_track.RowLaws.{rows_where-set_where}
use growth_track.Prelude.{
  ℕ, suc, ◌+◌, String, subst, ◌≡◌, refl, sym, ap, ◌∙◌, ◌⊎◌, inl, inr, Bool, true, false, ◌&&◌, none,
  some, List, [], ◌∷◌, arith, str_eq, ◌==◌, ==_refl, Bool-cases, rows_where, set_where, find?,
}
use growth_track.Models.{User, PasswordResetToken}
use growth_track.Session.{Exc, World, Env, Outcome, ok, raised}
use growth_track.Persistence.Users.{has_id}
use growth_track.Auth.PasswordReset.{may_reset, is_live, complete_reset}

-- The rows that carry the hash of a raw token.
abbrev pub tokens_for : Env → String → World → List PasswordResetToken
tokens_for env raw_token w =
    rows_where (λ t. str_eq t.token_hash (env.sha256 raw_token)) w.db.password_reset_tokens

abbrev pub has_token_id : ℕ → PasswordResetToken → Bool
has_token_id k t = t.id == k

abbrev pub used : ℕ → PasswordResetToken → PasswordResetToken
used t x = record x { used_at = some t }

abbrev with_password : String → User → User
with_password hashed u = record u { hashed_password = some hashed; version = u.version + 1 }

abbrev unlocked : User → User
unlocked u = record u { failed_login_count = 0; locked_until = none }

module _ (env : Env) (raw_token password : String) (w : World) where
  abbrev completed : Outcome (Unit {0}) × World
  completed = complete_reset env raw_token password w

  reset-refused :
      (rows : List PasswordResetToken)
      → tokens_for env raw_token w ≡ rows
      → ((t : PasswordResetToken)
          → rows ≡ t ∷ []
          → is_live t (env.now w.calls) && may_reset (find? (has_id t.user_id) w.db.users) ≡ false)
      → ((e : Exc) × (completed.0 ≡ raised e)) × (completed.1.db ≡ w.db)
  unfolding complete_reset
  reset-refused [] h dead = ((Exc.invalid_reset_token, rw h), rw h)
  reset-refused (t ∷ s ∷ rows) h dead = ((Exc.multiple_results_found, rw h), rw h)
  reset-refused (t ∷ []) h dead =
      let stop = dead t refl in
      elim (Bool-cases (is_live t (env.now w.calls))) [
        | inl l ↦
            let m : may_reset (find? (has_id t.user_id) w.db.users) ≡ false = rw l at stop in
            ((Exc.invalid_reset_token, rw (h, l, m)), rw (h, l, m))
        | inr l ↦ ((Exc.invalid_reset_token, rw (h, l)), rw (h, l))
      ]

  reset-accepted :
      (t : PasswordResetToken)
      → tokens_for env raw_token w ≡ t ∷ []
      → is_live t (env.now w.calls) ≡ true
      → may_reset (find? (has_id t.user_id) w.db.users) ≡ true
      → (completed.0 ≡ ok tt)
        × (completed.1.db.password_reset_tokens
            ≡ set_where (has_token_id t.id) (used (env.now w.calls)) w.db.password_reset_tokens)
        × (completed.1.db.users
            ≡ set_where (has_id t.user_id) unlocked (
                set_where
                  (has_id t.user_id)
                  (with_password (env.hash (suc w.calls) password))
                  w.db.users))
  unfolding complete_reset
  reset-accepted t h l m = (rw (h, l, m), rw (h, l, m), rw (h, l, m))

  reset-used :
      (t : PasswordResetToken)
      → tokens_for env raw_token w ≡ t ∷ []
      → is_live t (env.now w.calls) ≡ false
      → (completed.0 ≡ raised Exc.invalid_reset_token) × (completed.1.db ≡ w.db)
  unfolding complete_reset
  reset-used t h l = (rw (h, l), rw (h, l))

  -- What a reset did.
  abbrev pub Reset : Type 0
  Reset =
      (((e : Exc) × (completed.0 ≡ raised e)) × (completed.1.db ≡ w.db))
      ⊎ ((t : PasswordResetToken) × (tokens_for env raw_token w ≡ t ∷ [])
          × (is_live t (env.now w.calls) ≡ true)
          × (may_reset (find? (has_id t.user_id) w.db.users) ≡ true)
          × (completed.0 ≡ ok tt)
          × (completed.1.db.password_reset_tokens
              ≡ set_where (has_token_id t.id) (used (env.now w.calls)) w.db.password_reset_tokens)
          × (completed.1.db.users
              ≡ set_where (has_id t.user_id) unlocked (
                  set_where (has_id t.user_id) (with_password (env.hash (suc w.calls) password))
                    w.db.users)))

  reset_cases_of : (rows : List PasswordResetToken) → tokens_for env raw_token w ≡ rows → Reset
  reset_cases_of [] h = inl (reset-refused [] h (λ t e. cc))
  reset_cases_of (t ∷ s ∷ rows) h = inl (reset-refused (t ∷ s ∷ rows) h (λ x e. cc))
  reset_cases_of (t ∷ []) h =
      elim (Bool-cases
        (is_live t (env.now w.calls) && may_reset (find? (has_id t.user_id) w.db.users))) [
          | inl c ↦
              let l : is_live t (env.now w.calls) ≡ true = ground (arith, c) in
              let m : may_reset (find? (has_id t.user_id) w.db.users) ≡ true = ground (arith, c) in
              let (x, y, z) = reset-accepted t h l m in inr (t, h, l, m, x, y, z)
          | inr c ↦ inl (
              reset-refused (t ∷ []) h (λ x e.
                let same : t ≡ x = ground arith in
                subst
                  (λ y.
                    is_live y (env.now w.calls) && may_reset (find? (has_id y.user_id) w.db.users)
                    ≡ false)
                  same c))
        ]

  -- A reset either raises and changes no table, or the raw token belongs to one token that is
  -- unused and has not expired, of an active administrator. Then that token is marked as used, and
  -- its user gets the new password and the next version, without failures and lock.
  pub complete_reset_cases : Reset
  complete_reset_cases = reset_cases_of (tokens_for env raw_token w) refl

module _ (env : Env) (raw_token password later : String) (w : World) where
  -- A raw token resets a password once: after a reset that succeeds, every later reset with the
  -- same raw token raises invalid_reset_token and changes no table.
  complete_reset_once :
      (complete_reset env raw_token password w).0 ≡ ok tt
      → ((complete_reset env raw_token later (complete_reset env raw_token password w).1).0
          ≡ raised Exc.invalid_reset_token)
        × ((complete_reset env raw_token later (complete_reset env raw_token password w).1).1.db
            ≡ (complete_reset env raw_token password w).1.db)
  complete_reset_once h = elim (complete_reset_cases env raw_token password w) [
    | inl ((e, r), s) ↦ let clash = sym h ∙ r in cc
    | inr (t, found, l, m, o, tokens, users) ↦
        reset-used env raw_token later (complete_reset env raw_token password w).1
          (used (env.now w.calls) t)
          (ap (rows_where (λ x. str_eq x.token_hash (env.sha256 raw_token))) tokens
            ∙ rows_where-set_where _ (has_token_id t.id) (used (env.now w.calls)) (λ x. refl)
                w.db.password_reset_tokens
            ∙ ap (set_where (has_token_id t.id) (used (env.now w.calls))) found
            ∙ rw (==_refl t.id))
          refl
  ]
