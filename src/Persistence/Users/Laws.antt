-- ===== src/Persistence/Users/Laws.antt =====
-- The queries of the users repository as filters of the table.
use growth_track.Prelude.{ℕ, ◌≡◌, refl, List, [], ◌∷◌, rows_where, contains}
use growth_track.Models.{User}
use growth_track.Session.{World, ok}
use growth_track.Persistence.Users.{get_many_by_ids}

no_users : (us : List User) → rows_where (λ u. contains u.id []) us ≡ []
no_users [] = refl
no_users (u ∷ us) = no_users us

pub get_many_by_ids_lem :
    (ids : List ℕ) (w : World)
    → get_many_by_ids ids w ≡ (ok (rows_where (λ u. contains u.id ids) w.db.users), w)
unfolding get_many_by_ids
get_many_by_ids_lem [] w = rw no_users
get_many_by_ids_lem (i ∷ ids) w = refl
