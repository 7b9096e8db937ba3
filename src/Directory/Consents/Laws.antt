-- ===== src/Directory/Consents/Laws.antt =====
-- Granting and revoking an opt-in (OptInConsentService in domain/recipients.py).
use growth_track.Prelude.{
  ℕ, suc, ◌≤◌, String, subst, ◌≡◌, refl, sym, ap, ◌∙◌, ◌⊎◌, inl, inr, true, none, some, List, [],
  ◌∷◌, arith, ◌==◌, ==_iff, Bool-cases, Option-cases, length, rows_where, find?, any, count_where,
}
use growth_track.RowLaws.{count_where-rows_where, any-count_where}
use growth_track.Models.{User, OptInConsent}
use growth_track.Session.{Exc, World, Env, Outcome, ok, raised}
use growth_track.Persistence.Users.{has_id}
use growth_track.Persistence.Consents.{is_active_for}
use growth_track.Directory.Users.Update.{NoActiveConsent, revoked-none}
use growth_track.Directory.Consents.{grant_consent, revoke_consent}

-- No user has two active consents.
abbrev pub AtMostOneActive : List OptInConsent → Type 0
AtMostOneActive rows = (user_id : ℕ) → count_where (is_active_for user_id) rows ≤ 1

module _ (env : Env) (user_id actor : ℕ) (w : World) where
  abbrev granted : Outcome OptInConsent × World
  granted = grant_consent env user_id actor w

  -- What a grant did.
  abbrev pub Grant : Type 0
  Grant =
      ((e : Exc) × (granted ≡ (raised e, w)))
      ⊎ ((c : OptInConsent) × (u : User) × (find? (has_id user_id) w.db.users ≡ some u)
          × (u.mobile ≡ some c.mobile)
          × (c.user_id ≡ user_id)
          × (c.revoked_at ≡ none)
          × (count_where (is_active_for user_id) w.db.opt_in_consents ≡ 0)
          × (granted.0 ≡ ok c)
          × (granted.1.db.opt_in_consents ≡ c ∷ w.db.opt_in_consents))

  abbrev new_consent : String → OptInConsent
  new_consent mobile = record {
    id = env.uuid4 w.calls;
    user_id = user_id;
    mobile = mobile;
    granted_at = env.now (suc w.calls);
    revoked_at = none;
  }

  grant-unreachable :
      (u : User)
      → find? (has_id user_id) w.db.users ≡ some u
      → u.mobile ≡ none
      → granted ≡ (raised Exc.consent_target_not_addressable, w)
  unfolding grant_consent
  grant-unreachable u h m = rw (h, m)

  grant-active :
      (u : User) (mobile : String) (rows : List OptInConsent)
      → find? (has_id user_id) w.db.users ≡ some u
      → u.mobile ≡ some mobile
      → rows_where (is_active_for user_id) w.db.opt_in_consents ≡ rows
      → Grant
  unfolding grant_consent
  grant-active u mobile [] h m a = inr (
    new_consent mobile,
    u,
    h,
    m,
    refl,
    refl,
    sym (count_where-rows_where _ w.db.opt_in_consents) ∙ ap length a,
    rw (h, m, a),
    rw (h, m, a),
  )
  grant-active u mobile (c ∷ []) h m a = inl (Exc.consent_already_active, rw (h, m, a))
  grant-active u mobile (c ∷ d ∷ rows) h m a = inl (Exc.multiple_results_found, rw (h, m, a))

  -- A grant either raises and changes nothing, or adds one consent of the user, not revoked, for the mobile
  -- number that the user has now; then the user had no active consent before.
  pub grant_consent_cases : Grant
  unfolding grant_consent
  grant_consent_cases = elim (Option-cases (find? (has_id user_id) w.db.users)) [
    | inl h ↦ inl (Exc.user_not_found, rw h)
    | inr (u, h) ↦ elim (Option-cases u.mobile) [
      | inl m ↦ inl (Exc.consent_target_not_addressable, grant-unreachable u h m)
      | inr (mobile, m) ↦
          grant-active u mobile (rows_where (is_active_for user_id) w.db.opt_in_consents) h m refl
    ]
  ]

  one_more_consent :
      (k : ℕ) (c : OptInConsent) (rows : List OptInConsent)
      → c.user_id ≡ user_id
      → count_where (is_active_for user_id) rows ≡ 0
      → count_where (is_active_for k) rows ≤ 1
      → count_where (is_active_for k) (c ∷ rows) ≤ 1
  one_more_consent k c rows own free h = elim (Bool-cases (user_id == k)) [
    | inl e ↦
        let none_yet =
          subst (λ j. count_where (is_active_for j) rows ≡ 0) ((==_iff user_id k).0 e) free in
        ground (arith, none_yet)
    | inr e ↦ ground (arith, e, own, h)
  ]

  -- If no user has two active consents, this is still so after a grant, whether it succeeds or not.
  pub grant_consent-AtMostOneActive :
      AtMostOneActive w.db.opt_in_consents → AtMostOneActive granted.1.db.opt_in_consents
  grant_consent-AtMostOneActive h k = elim grant_consent_cases [
    | inl (e, g) ↦
        subst (λ v. count_where (is_active_for k) v.db.opt_in_consents ≤ 1) (sym (ap (λ x. x.1) g))
          (h k)
    | inr (c, u, found, m, own, kept, free, o, rows) ↦
        subst (λ r. count_where (is_active_for k) r ≤ 1) (sym rows)
          (one_more_consent k c w.db.opt_in_consents own free (h k))
  ]

  revoke-active :
      (u : User) (mobile : String) (rows : List OptInConsent)
      → find? (has_id user_id) w.db.users ≡ some u
      → u.mobile ≡ some mobile
      → rows_where (is_active_for user_id) w.db.opt_in_consents ≡ rows
      → any (is_active_for user_id) w.db.opt_in_consents ≡ true
      → length rows ≡ 1
      → ((revoke_consent env user_id actor w).0 ≡ ok tt)
        × NoActiveConsent user_id (revoke_consent env user_id actor w).1
  unfolding revoke_consent
  revoke-active u mobile [] h m a y l = ground arith
  revoke-active u mobile (c ∷ []) h m a y l =
      rw (h, m, a, y) (refl, revoked-none user_id (env.now w.calls) w.db.opt_in_consents)
  revoke-active u mobile (c ∷ d ∷ rows) h m a y l = ground arith

  -- If the user exists, has a mobile number and has exactly one active consent, a revocation
  -- succeeds and leaves the user without an active consent.
  revoke_consent-NoActiveConsent :
      (u : User) (mobile : String)
      → find? (has_id user_id) w.db.users ≡ some u
      → u.mobile ≡ some mobile
      → count_where (is_active_for user_id) w.db.opt_in_consents ≡ 1
      → ((revoke_consent env user_id actor w).0 ≡ ok tt)
        × NoActiveConsent user_id (revoke_consent env user_id actor w).1
  revoke_consent-NoActiveConsent u mobile h m c =
      revoke-active u mobile _ h m refl
        (any-count_where (is_active_for user_id) w.db.opt_in_consents ∙ rw c)
        (count_where-rows_where (is_active_for user_id) w.db.opt_in_consents ∙ c)
