-- ===== src/Directory/Teams/Renaming.antt =====
-- When a rename reaches the teams (TeamDirectoryService.update_team in domain/recipients.py).
use growth_track.Models.{Team}
use growth_track.Session.{Exc, World, Env, Outcome, ok, raised}
use growth_track.Persistence.Teams
use growth_track.Persistence.Teams.{holds_name, has_id_and_version}
use growth_track.Directory.Teams.{
  is_other_team, normalized, has_doctors, ensure_territory_kept, update_team,
}
use growth_track.Prelude.{
  ℕ, ◌+◌, String, ◌≡◌, refl, ◌⊎◌, inl, inr, true, false, Option, none, some, List, [], ◌∷◌, str_eq,
  ◌==◌, Bool-cases, Option-cases, rows_where, set_where, find?, any, strip,
}

-- The row with a new name.
abbrev pub renamed : String → Team → Team
renamed name t = record t { name = name; version = t.version + 1 }

module _ (env : Env) (team_id : ℕ) (name : String) (expected_version actor : ℕ) (w : World) where
  abbrev pub result : Outcome (Option Team) × World
  result = update_team env team_id name expected_version actor w

  -- The teams after the UPDATE.
  abbrev pub moved : List Team
  moved = set_where (has_id_and_version team_id expected_version) (renamed (strip name)) w.db.teams

  -- The guard of the doctors passed.
  abbrev pub Passed : Team → Type 0
  Passed target =
      (str_eq (normalized env target.name) (env.lower (strip name)) ≡ true)
      ⊎ (has_doctors env (normalized env target.name) w.db.doctors ≡ false)

  -- Either no team has changed, or the team was found, the guard passed and its row is renamed.
  abbrev pub Renaming : Type 0
  Renaming =
      (result.1.db.teams ≡ w.db.teams)
      ⊎ ((target : Team) × (find? (λ t. t.id == team_id) w.db.teams ≡ some target)
          × Passed target
          × (result.1.db.teams ≡ moved))

  module _ (target : Team) (found : find? (λ t. t.id == team_id) w.db.teams ≡ some target)
      (v : target.version == expected_version ≡ true) where
    passed-moved :
        (o : Option Team)
        → Teams.get_by_name (strip name) w ≡ (ok o, w)
        → is_other_team o team_id ≡ false
        → ensure_territory_kept env target (strip name) w ≡ (ok tt, w)
        → result.1.db.teams ≡ moved
    unfolding update_team
    passed-moved o g n k =
        elim (Bool-cases (any (has_id_and_version team_id expected_version) w.db.teams)) [
          | inl a ↦ rw (found, v, g, n, k, a) refl
          | inr a ↦ rw (found, v, g, n, k, a) refl
        ]

    refused-kept :
        (o : Option Team) (e : Exc)
        → Teams.get_by_name (strip name) w ≡ (ok o, w)
        → is_other_team o team_id ≡ false
        → ensure_territory_kept env target (strip name) w ≡ (raised e, w)
        → result.1.db.teams ≡ w.db.teams
    unfolding update_team
    refused-kept o e g n k = rw (found, v, g, n, k) refl

    guarded :
        (o : Option Team)
        → Teams.get_by_name (strip name) w ≡ (ok o, w)
        → is_other_team o team_id ≡ false
        → Renaming
    unfolding ensure_territory_kept
    guarded o g n =
        elim (Bool-cases (str_eq (normalized env target.name) (env.lower (strip name)))) [
          | inl s ↦ inr (target, found, inl s, passed-moved o g n (rw s refl))
          | inr s ↦ elim (Bool-cases (has_doctors env (normalized env target.name) w.db.doctors)) [
            | inl d ↦
                inl (refused-kept o Exc.team_rename_breaks_territory_mapping g n (rw (s, d) refl))
            | inr d ↦ inr (target, found, inr d, passed-moved o g n (rw (s, d) refl))
          ]
        ]

    looked_up :
        (rows : List Team) → rows_where (holds_name (strip name)) w.db.teams ≡ rows → Renaming
    unfolding update_team Teams.get_by_name
    looked_up [] h = guarded none (rw h refl) refl
    looked_up (x ∷ []) h = elim (Bool-cases (is_other_team (some x) team_id)) [
      | inl o ↦ inl (rw (found, v, h, o) refl)
      | inr o ↦ guarded (some x) (rw h refl) o
    ]
    looked_up (x ∷ y ∷ rows) h = inl (rw (found, v, h) refl)

  pub update_team-Renaming : Renaming
  unfolding update_team
  update_team-Renaming = elim (Option-cases (find? (λ t. t.id == team_id) w.db.teams)) [
    | inl h ↦ inl (rw h refl)
    | inr (target, h) ↦ elim (Bool-cases (target.version == expected_version)) [
      | inl v ↦ looked_up target h v (rows_where (holds_name (strip name)) w.db.teams) refl
      | inr v ↦ inl (rw (h, v) refl)
    ]
  ]
