-- ===== src/Directory/Teams.antt =====
-- TeamDirectoryService (domain/recipients.py).
pub mod Laws
pub mod Renaming
use growth_track.Prelude.{
  ℕ, String, Bool, false, not, Option, none, some, List, [], ◌∷◌, str_eq, ◌==◌, is_some, any, strip,
}
use growth_track.Models.{Team, Detail, Doctor}
use growth_track.Session.{Exc, Session, query, external, ◌>>=◌, ◌>>◌, raise_if, when, Env}
use growth_track.Persistence.Teams
use growth_track.Directory.Audit.{audit_now}
use growth_track.Directory.Users.{require_team}

-- `existing is not None and existing.id != team_id`.
abbrev pub is_other_team : Option Team → ℕ → Bool
is_other_team none team_id = false
is_other_team (some t) team_id = not (t.id == team_id)

module _ (env : Env) where
  -- `text.strip().lower()`
  unfoldable pub normalized : String → String
  unfolding strip
  normalized text = env.lower (strip text)

  -- Whether a doctor's territory is the team's name, up to case and outer space.
  unfoldable pub has_doctors : String → List Doctor → Bool
  unfolding normalized
  has_doctors old_territory = any (λ d. str_eq (normalized d.territory) old_territory)

  unfoldable pub create_team : String → ℕ → Session (Option Team)
  unfolding strip Teams.get_by_name Teams.add Teams.get_by_id audit_now
  create_team name actor_user_id = do
    let name' = strip name
    existing ← Teams.get_by_name name'
    raise_if (is_some existing) Exc.team_name_taken
    team_id ← external env.uuid4
    Teams.add team_id name'
    audit_now env (some actor_user_id) "team.created" (some "Team") (some team_id)
        (some (("name", Detail.text name') ∷ []))
    Teams.get_by_id team_id

  -- The check before a rename: the doctors are read only if the normalized name changes.
  unfoldable pub ensure_territory_kept : Team → String → Session (Unit {0})
  unfolding normalized has_doctors
  ensure_territory_kept target name =
      when (not (str_eq (normalized target.name) (env.lower name))) (do
        doctors ← query (λ d. d.doctors)
        raise_if (has_doctors (normalized target.name) doctors)
            Exc.team_rename_breaks_territory_mapping)

  unfoldable pub update_team : ℕ → String → ℕ → ℕ → Session (Option Team)
  unfolding strip Teams.get_by_id Teams.get_by_name ensure_territory_kept Teams.update_name
      audit_now
  update_team team_id name expected_version actor_user_id = do
    found ← Teams.get_by_id team_id
    target ← require_team found
    raise_if (not (target.version == expected_version)) Exc.version_conflict
    let name' = strip name
    existing ← Teams.get_by_name name'
    raise_if (is_other_team existing team_id) Exc.team_name_taken
    ensure_territory_kept target name'
    updated ← Teams.update_name team_id name' expected_version
    raise_if (not updated) Exc.version_conflict
    audit_now env (some actor_user_id) "team.updated" (some "Team") (some team_id)
        (some (("name", Detail.text name') ∷ []))
    Teams.get_by_id team_id

  unfoldable pub remove_team : ℕ → ℕ → Session (Unit {0})
  unfolding Teams.get_by_id Teams.deactivate audit_now
  remove_team team_id actor_user_id = do
    found ← Teams.get_by_id team_id
    target ← require_team found
    Teams.deactivate team_id
    audit_now env (some actor_user_id) "team.deactivated" (some "Team") (some team_id) none
