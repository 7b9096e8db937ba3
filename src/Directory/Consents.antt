-- ===== src/Directory/Consents.antt =====
-- OptInConsentService (domain/recipients.py).
pub mod Laws
use growth_track.Prelude.{ℕ, String, not, Option, none, some, [], ◌∷◌, is_none, is_some}
use growth_track.Models.{OptInConsent, Detail}
use growth_track.Session.{Exc, Session, return, raise, ◌>>=◌, ◌>>◌, raise_if, Env}
use growth_track.Persistence.Users
use growth_track.Persistence.Consents
use growth_track.Directory.Audit.{audit_now}
use growth_track.Directory.Users.{require_user}

-- `if target.mobile is None: raise ConsentTargetNotAddressable()`.
abbrev pub require_mobile : Option String → Session String
require_mobile none = raise Exc.consent_target_not_addressable
require_mobile (some mobile) = return mobile

module _ (env : Env) where
  unfoldable pub grant_consent : ℕ → ℕ → Session OptInConsent
  unfolding Users.get_by_id Consents.get_active Consents.grant audit_now
  grant_consent user_id actor_user_id = do
    found ← Users.get_by_id user_id
    target ← require_user found Exc.user_not_found
    mobile ← require_mobile target.mobile
    active ← Consents.get_active user_id
    raise_if (is_some active) Exc.consent_already_active
    consent ← Consents.grant env user_id mobile
    audit_now env (some actor_user_id) "consent.granted" (some "User") (some user_id)
        (some (("mobile", Detail.text mobile) ∷ []))
    return consent

  unfoldable pub revoke_consent : ℕ → ℕ → Session (Unit {0})
  unfolding Users.get_by_id Consents.get_active Consents.revoke_active audit_now
  revoke_consent user_id actor_user_id = do
    found ← Users.get_by_id user_id
    target ← require_user found Exc.user_not_found
    mobile ← require_mobile target.mobile
    active ← Consents.get_active user_id
    raise_if (is_none active) Exc.consent_not_active
    revoked ← Consents.revoke_active env user_id
    raise_if (not revoked) Exc.consent_not_active
    audit_now env (some actor_user_id) "consent.revoked" (some "User") (some user_id) none
