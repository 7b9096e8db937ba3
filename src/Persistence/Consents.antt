-- ===== src/Persistence/Consents.antt =====
-- SqlAlchemyOptInConsentRepository (adapters/persistence/consent.py).
pub mod Laws
use growth_track.Prelude.{
  ℕ, String, Bool, ◌&&◌, Option, none, some, List, [], ◌∷◌, ◌==◌, is_none, rows_where, set_where,
  any, contains,
}
use growth_track.Models.{OptInConsent}
use growth_track.Session.{
  Session, Env, query, write, external, scalar_one_or_none, return, ◌>>=◌, ◌>>◌,
}

-- A row that is not revoked, of a user: ix_opt_in_consents_user_id_active_uq.
abbrev pub is_active_for : ℕ → OptInConsent → Bool
is_active_for user_id c = c.user_id == user_id && is_none c.revoked_at

unfoldable pub get_active : ℕ → Session (Option OptInConsent)
get_active user_id = do
  rows ← query (λ d. rows_where (is_active_for user_id) d.opt_in_consents)
  scalar_one_or_none rows

-- The rows whose dict comprehension by `user_id` is the result.
unfoldable pub get_active_by_user_ids : List ℕ → Session (List OptInConsent)
get_active_by_user_ids [] = return []
get_active_by_user_ids (i ∷ ids) =
    query (λ d.
      rows_where (λ c. contains c.user_id (i ∷ ids) && is_none c.revoked_at) d.opt_in_consents)

module _ (env : Env) where
  unfoldable pub grant : ℕ → String → Session OptInConsent
  grant user_id mobile = do
    id ← external env.uuid4
    granted_at ← external env.now
    let model : OptInConsent = record {
      id = id;
      user_id = user_id;
      mobile = mobile;
      granted_at = granted_at;
      revoked_at = none;
    }
    write (λ d. record d { opt_in_consents = model ∷ d.opt_in_consents })
    return model

  unfoldable pub revoke_active : ℕ → Session Bool
  revoke_active user_id = do
    revoked_at ← external env.now
    matched ← query (λ d. any (is_active_for user_id) d.opt_in_consents)
    write (λ d. record d {
      opt_in_consents =
          set_where (is_active_for user_id) (λ c. record c { revoked_at = some revoked_at })
            d.opt_in_consents;
    })
    return matched
