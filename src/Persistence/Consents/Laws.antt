-- ===== src/Persistence/Consents/Laws.antt =====
-- The queries of the consents repository as filters of the table.
use growth_track.Prelude.{ℕ, ◌≡◌, refl, ◌&&◌, List, [], ◌∷◌, is_none, rows_where, contains}
use growth_track.Models.{OptInConsent}
use growth_track.Session.{World, ok}
use growth_track.Persistence.Consents.{get_active_by_user_ids}

no_consents :
    (cs : List OptInConsent)
    → rows_where (λ c. contains c.user_id [] && is_none c.revoked_at) cs ≡ []
no_consents [] = refl
no_consents (c ∷ cs) = no_consents cs

pub get_active_by_user_ids_lem :
    (ids : List ℕ) (w : World)
    → get_active_by_user_ids ids w ≡ (
      ok (rows_where (λ c. contains c.user_id ids && is_none c.revoked_at) w.db.opt_in_consents),
      w,
    )
unfolding get_active_by_user_ids
get_active_by_user_ids_lem [] w = rw no_consents
get_active_by_user_ids_lem (i ∷ ids) w = refl
