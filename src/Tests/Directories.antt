-- ===== src/Tests/Directories.antt =====
-- The directory theorems on the sample.
use growth_track.Prelude.{
  ◌≤◌, any, ◌&&◌, not, subst, ◌≡◌, refl, ◌⊎◌, inl, inr, true, false, some, arith, str_eq, eq_iff,
  ◌==◌, Bool-cases, set_where, find?, count_where,
}
use growth_track.Api.Users as Api
use growth_track.Api.Users.Laws.{Untouched, Stored, create_user-Stored}
use growth_track.Models.{is_administrator, Role, User}
use growth_track.Session.{Exc, World, ok, raised}
use growth_track.Tests.Samples.{sample_env, sample_world}
use growth_track.Persistence.Users.{has_id, has_id_and_version, holds_mobile}
use growth_track.Directory.Users.{differs, remove_user, create_user, update_user}
use growth_track.Directory.Users.Removal.{administrators, Removal, remove_user-keeps_administrator}
use growth_track.Directory.Users.Creation.{MobilesUnique, create_user-MobilesUnique}
use growth_track.Directory.Consents.{grant_consent}
use growth_track.Directory.Consents.Laws.{
  AtMostOneActive, Grant, grant_consent_cases, grant_consent-AtMostOneActive,
}
use growth_track.Directory.Users.Update.{NoActiveConsent, TeamActive, edited, update_user_cases}
use growth_track.RowLaws.{All}
use growth_track.Directory.Teams.{update_team}
use growth_track.Directory.Teams.Laws.{names, update_team-keeps_territories}

remove_user-keeps_administrator_example :
    (1 ≤ administrators (remove_user sample_env 1 2 sample_world).1.db.users)
    × Removal sample_env 1 2 sample_world
remove_user-keeps_administrator_example =
    remove_user-keeps_administrator sample_env 1 2 sample_world (refl, (refl, (refl, (refl, tt))))
      (omega arith)

sample-MobilesUnique : MobilesUnique sample_world.db.users
sample-MobilesUnique mobile = elim (Bool-cases (str_eq "+8801" mobile)) [
  | inl e ↦
      subst (λ m. count_where (holds_mobile m) sample_world.db.users ≤ 1)
        ((eq_iff "+8801" mobile).0 e) (omega arith)
  | inr e ↦ rw e (ground arith)
]

create_user-MobilesUnique_example :
    MobilesUnique (create_user sample_env "Carol" "+8803" Role.manager 10 1 sample_world).1.db.users
create_user-MobilesUnique_example =
    create_user-MobilesUnique sample_env "Carol" "+8803" Role.manager 10 1 sample_world
      sample-MobilesUnique

grant_consent_cases_example : Grant sample_env 4 1 sample_world
grant_consent_cases_example = grant_consent_cases sample_env 4 1 sample_world

sample-AtMostOneActive : AtMostOneActive sample_world.db.opt_in_consents
sample-AtMostOneActive user_id = ground arith

grant_consent-AtMostOneActive_example :
    AtMostOneActive (grant_consent sample_env 4 1 sample_world).1.db.opt_in_consents
grant_consent-AtMostOneActive_example =
    grant_consent-AtMostOneActive sample_env 4 1 sample_world sample-AtMostOneActive

-- The doctor's territory is Dhaka.
update_team-keeps_territories_example :
    All
      (λ d.
        any (names sample_env d.territory) sample_world.db.teams ≡ true
        → any
            (names sample_env d.territory)
            (update_team sample_env 10 "Chittagong" 1 1 sample_world).1.db.teams
          ≡ true)
      sample_world.db.doctors
update_team-keeps_territories_example =
    update_team-keeps_territories sample_env 10 "Chittagong" 1 1 sample_world (refl, tt)

update_user_cases_example :
    ((e : Exc) × (update_user sample_env 3 "Alice" "+8809" 10 1 1 sample_world
        ≡ (raised e, sample_world)))
    ⊎ ((u : User) × (find? (has_id 3) sample_world.db.users ≡ some u)
        × (is_administrator u.role ≡ false)
        × (u.version == 1 ≡ true)
        × TeamActive 10 sample_world
        × (count_where (λ v. holds_mobile "+8809" v && not (v.id == 3)) sample_world.db.users ≡ 0)
        × ((update_user sample_env 3 "Alice" "+8809" 10 1 1 sample_world).0
            ≡ ok (
                find?
                  (has_id 3)
                  (update_user sample_env 3 "Alice" "+8809" 10 1 1 sample_world).1.db.users))
        × ((update_user sample_env 3 "Alice" "+8809" 10 1 1 sample_world).1.db.users
            ≡ set_where (has_id_and_version 3 1) (edited "Alice" "+8809" 10) sample_world.db.users)
        × ((differs u.mobile "+8809" ≡ false)
            ⊎ NoActiveConsent 3 (update_user sample_env 3 "Alice" "+8809" 10 1 1 sample_world).1))
update_user_cases_example = update_user_cases sample_env 3 "Alice" "+8809" 10 1 1 sample_world

-- The sample, as it is after a commit.
abbrev stored_world : World
stored_world = record sample_world { committed = sample_world.db }

create_user-Stored_example :
    Untouched stored_world
      (Api.create_user sample_env (λ n. false) "Carol" "+8803" Role.manager 10 1 stored_world)
    ⊎ Stored "Carol" "+8803" Role.manager 10 stored_world
        (Api.create_user sample_env (λ n. false) "Carol" "+8803" Role.manager 10 1 stored_world)
create_user-Stored_example =
    create_user-Stored sample_env (λ n. false) "Carol" "+8803" Role.manager 10 1 stored_world refl
