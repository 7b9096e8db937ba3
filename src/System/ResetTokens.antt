-- ===== src/System/ResetTokens.antt =====
-- Password reset over the life of the program (api/auth/routes.py, domain/password_reset.py).
use growth_track.RowLaws.{rows_where-set_where}
use growth_track.Models.{PasswordResetToken}
use growth_track.Session.{Exc, World, Env, Outcome, ok, raised, commit, return, ◌>>◌}
use growth_track.Api.Auth as Auth
use growth_track.Api.Replies.{HttpError, done, refuse_listed, settle_call}
use growth_track.Auth.PasswordReset.{complete_reset, is_live}
use growth_track.Auth.PasswordReset.Laws.{complete_reset_cases, has_token_id, used}
use growth_track.System.{Setup, Request, handle, serve, serve_all}
use growth_track.System.Stable.{IsStable, serve_all-stable}
use growth_track.Prelude.{
  ℕ, String, ◌≡◌, ◌≢◌, refl, sym, ◌∙◌, ap, inl, inr, Bool, true, false, Option, none, some, List,
  [], ◌∷◌, arith, str_eq, ◌==◌, ==_refl, is_some, Bool-cases, any, rows_where, set_where,
}

abbrev is_used : PasswordResetToken → Bool
is_used t = is_some t.used_at

any-used-set_where :
    (id at : ℕ) (tokens : List PasswordResetToken)
    → any is_used tokens ≡ true
    → any is_used (set_where (has_token_id id) (used at) tokens) ≡ true
any-used-set_where id at [] h = h
any-used-set_where id at (t ∷ tokens) h = elim (Bool-cases (t.id == id)) [
  | inl e ↦ rw e
  | inr e ↦ rw e (ground (arith, h, any-used-set_where id at tokens))
]

-- A used token is not live.
used-ne-live : (t : PasswordResetToken) (now : ℕ) → is_live t now ≡ true → is_used t ≡ false
used-ne-live t now h = ground (arith, h)

module _ (hash : String) where
  abbrev hashes_to : PasswordResetToken → Bool
  hashes_to t = str_eq t.token_hash hash

  -- A row with the hash has been used.
  abbrev IsSpent : List PasswordResetToken → Type 0
  IsSpent tokens = any is_used (rows_where hashes_to tokens) ≡ true

  IsSpent-add :
      (t : PasswordResetToken) (tokens : List PasswordResetToken)
      → IsSpent tokens
      → IsSpent (t ∷ tokens)
  IsSpent-add t tokens h = ground (arith, h)

  IsSpent-mark :
      (id at : ℕ) (tokens : List PasswordResetToken)
      → IsSpent tokens
      → IsSpent (set_where (λ t. t.id == id) (λ t. record t { used_at = some at }) tokens)
  IsSpent-mark id at tokens h =
      ap (any is_used)
        (rows_where-set_where hashes_to (has_token_id id) (used at) (λ t. refl) tokens)
      ∙ any-used-set_where id at (rows_where hashes_to tokens) h

  IsSpent-IsStable : IsStable (λ l. IsSpent l.tokens)
  IsSpent-IsStable = record {
    audit = λ entry l h. h;
    revoke = λ jti at l h. h;
    add_token = λ token l h. IsSpent-add token l.tokens h;
    mark_used = λ id at l h. IsSpent-mark id at l.tokens h;
    insert = λ rows table l e h. h;
    touch = λ p f k l h. h;
  }

refuse_listed-ne-done :
    {A : Type 0} (o : Option HttpError) (a : A) (w : World)
    → (refuse_listed {A = A} o w).0 ≢ ok (done a)
refuse_listed-ne-done none a w h = cc
refuse_listed-ne-done (some (status, code)) a w h = cc

module _ (env : Env) (raw_token : String) where
  -- A spent token resets nothing.
  complete_reset-IsSpent :
      (password : String) (w : World)
      → IsSpent (env.sha256 raw_token) w.db.password_reset_tokens
      → ((e : Exc) × ((complete_reset env raw_token password w).0 ≡ raised e))
        × ((complete_reset env raw_token password w).1.db ≡ w.db)
  complete_reset-IsSpent password w h = elim (complete_reset_cases env raw_token password w) [
    | inl r ↦ r
    | inr (t, found, live, m, o, tokens, users) ↦
        let u : any is_used (t ∷ []) ≡ true = sym (ap (any is_used) found) ∙ h in
        let v = used-ne-live t (env.now w.calls) live in
        let clash : true ≡ false = sym u ∙ rw v in cc
  ]

  -- A reset that succeeds spends its token.
  complete_reset-spends :
      (password : String) (w : World)
      → (complete_reset env raw_token password w).0 ≡ ok tt
      → IsSpent
          (env.sha256 raw_token)
          (complete_reset env raw_token password w).1.db.password_reset_tokens
  complete_reset-spends password w h = elim (complete_reset_cases env raw_token password w) [
    | inl ((e, r), same) ↦ let clash = sym h ∙ r in cc
    | inr (t, found, live, m, o, tokens, users) ↦
        ap (λ xs. any is_used (rows_where (hashes_to (env.sha256 raw_token)) xs)) tokens
        ∙ ap (any is_used) (
            rows_where-set_where _ (has_token_id t.id) (used (env.now w.calls)) (λ x. refl)
              w.db.password_reset_tokens)
        ∙ ap (λ xs. any is_used (set_where (has_token_id t.id) (used (env.now w.calls)) xs)) found
        ∙ rw (==_refl t.id)
  ]

module _ (s : Setup) (raw_token password : String) (w : World) where
  abbrev request : Request
  request = Request.reset_password raw_token password

  settled-IsSpent :
      (x : Outcome (Unit {0}) × World)
      → (x.0 ≡ ok tt → IsSpent (s.env.sha256 raw_token) x.1.db.password_reset_tokens)
      → (settle_call
          (λ e. refuse_listed (Auth.reset_errors e))
          (λ u. commit >> return (done tt))
          x).0
        ≡ ok (done tt)
      → IsSpent
          (s.env.sha256 raw_token)
          (settle_call
            (λ e. refuse_listed (Auth.reset_errors e))
            (λ u. commit >> return (done tt))
            x).1.committed.password_reset_tokens
  settled-IsSpent (ok u, v) h k = h refl
  settled-IsSpent (raised e, v) h k = absurd (refuse_listed-ne-done (Auth.reset_errors e) tt v k)

  served-IsSpent :
      (handle s request w).0 ≡ ok (done tt)
      → IsSpent (s.env.sha256 raw_token) (serve s request w).committed.password_reset_tokens
  unfolding serve handle Auth.reset_password
  served-IsSpent h =
      settled-IsSpent (complete_reset s.env raw_token password w)
        (complete_reset-spends s.env raw_token password w) h

  closed :
      IsSpent (s.env.sha256 raw_token) (serve s request w).committed.password_reset_tokens
      → IsSpent (s.env.sha256 raw_token) (serve s request w).db.password_reset_tokens
  unfolding serve
  closed h = h

-- A raw token resets one password: once a reset request with it has succeeded, every reset with it
-- raises and changes no table, whatever requests and jobs follow in between.
pub complete_reset-once_ever :
    (s : Setup) (requests : List Request) (w : World) (raw_token password later : String)
    → (handle s (Request.reset_password raw_token password) w).0 ≡ ok (done tt)
    → ((e : Exc) × ((complete_reset s.env raw_token later
            (serve_all s (Request.reset_password raw_token password ∷ requests) w)).0
          ≡ raised e))
      × ((complete_reset s.env raw_token later
            (serve_all s (Request.reset_password raw_token password ∷ requests) w)).1.db
          ≡ (serve_all s (Request.reset_password raw_token password ∷ requests) w).db)
unfolding serve_all
complete_reset-once_ever s requests w raw_token password later h =
    let v = serve s (Request.reset_password raw_token password) w in
    let spent = served-IsSpent s raw_token password w h in
    let held =
      serve_all-stable (λ l. IsSpent (s.env.sha256 raw_token) l.tokens)
        (IsSpent-IsStable (s.env.sha256 raw_token)) s requests v
        (closed s raw_token password w spent) spent in
    complete_reset-IsSpent s.env raw_token later (serve_all s requests v) held.0
