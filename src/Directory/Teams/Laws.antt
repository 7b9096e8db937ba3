-- ===== src/Directory/Teams/Laws.antt =====
-- What renaming a team does to the doctors' territories (TeamDirectoryService.update_team in
-- domain/recipients.py).
use growth_track.RowLaws.{All}
use growth_track.TextLaws.{strip-strip}
use growth_track.Models.{is_active_team, Team, Doctor}
use growth_track.Session.{World, Env}
use growth_track.Persistence.Teams.{has_id_and_version}
use growth_track.Directory.Teams.{normalized, has_doctors, update_team}
use growth_track.Prelude.{
  ℕ, String, subst, ◌≡◌, refl, sym, ap, ◌∙◌, ◌⊎◌, inl, inr, Bool, true, false, ◌&&◌, some, List, [],
  ◌∷◌, map, arith, str_eq, eq_iff, ◌==◌, Bool-cases, set_where, find?, any, contains, Distinct,
  strip,
}
use growth_track.Directory.Teams.Renaming.{renamed, update_team-Renaming}

-- Whether an active team has the territory's name, up to outer space and case.
abbrev pub names : Env → String → Team → Bool
names env territory t =
    is_active_team t.status && str_eq (env.lower (strip territory)) (env.lower (strip t.name))

abbrev pub team_id_of : Team → ℕ
team_id_of t = t.id

absent :
    (team_id : ℕ) (version : ℕ) (f : Team → Team) (p : Team → Bool) (teams : List Team)
    → contains team_id (map team_id_of teams) ≡ false
    → any p (set_where (has_id_and_version team_id version) f teams) ≡ any p teams
absent team_id version f p [] h = refl
absent team_id version f p (t ∷ teams) h =
    let other : t.id == team_id ≡ false = ground (arith, h) in
    rw (other, absent team_id version f p teams (ground (arith, h))) refl

-- An UPDATE of one team keeps that some team passes a test, if it keeps it of the row that is found.
any-kept :
    (team_id version : ℕ) (f : Team → Team) (p : Team → Bool) (target : Team) (teams : List Team)
    → find? (λ t. t.id == team_id) teams ≡ some target
    → Distinct (map team_id_of teams)
    → (p target ≡ true → p (f target) ≡ true)
    → any p teams ≡ true
    → any p (set_where (has_id_and_version team_id version) f teams) ≡ true
any-kept team_id version f p target [] h d k a = a
any-kept team_id version f p target (t ∷ teams) h d k a = elim (Bool-cases (t.id == team_id)) [
  | inl e ↦
      let same : some t ≡ some target = rw e at h in
      let here : p t ≡ true → p (f t) ≡ true = ground (arith, same, k) in
      let gone : contains team_id (map team_id_of teams) ≡ false = ground (arith, e, d.0) in
      let rest = absent team_id version f p teams gone in
      elim (Bool-cases (t.version == version)) [
        | inl v ↦ rw (e, v, rest) (ground (arith, here, a))
        | inr v ↦ rw (e, v, rest) a
      ]
  | inr e ↦
      let ih = any-kept team_id version f p target teams (rw e at h) d.1 k in
      rw e (ground (arith, ih, a))
]

module _ (env : Env) (name : String) (target : Team) where
  names-renamed :
      (territory : String)
      → str_eq (normalized env target.name) (env.lower (strip name)) ≡ true
      → names env territory target ≡ true
      → names env territory (renamed (strip name) target) ≡ true
  unfolding normalized
  names-renamed territory s h =
      let same = (eq_iff (env.lower (strip target.name)) (env.lower (strip name))).0 s in
      subst (λ x. (is_active_team target.status && str_eq (env.lower (strip territory)) x) ≡ true)
        (same ∙ ap env.lower (sym (strip-strip name))) h

  names-other :
      (d : Doctor) (doctors : List Doctor)
      → has_doctors env (normalized env target.name) (d ∷ doctors) ≡ false
      → (names env d.territory target ≡ false)
        × (has_doctors env (normalized env target.name) doctors ≡ false)
  unfolding has_doctors normalized
  names-other d doctors h = (ground (arith, h), ground (arith, h))

  territories-kept :
      (team_id version : ℕ) (teams : List Team) (doctors : List Doctor)
      → find? (λ t. t.id == team_id) teams ≡ some target
      → Distinct (map team_id_of teams)
      → (str_eq (normalized env target.name) (env.lower (strip name)) ≡ true)
        ⊎ (has_doctors env (normalized env target.name) doctors ≡ false)
      → All
          (λ d.
            any (names env d.territory) teams ≡ true
            → any
                (names env d.territory)
                (set_where (has_id_and_version team_id version) (renamed (strip name)) teams)
              ≡ true)
          doctors
  territories-kept team_id version teams [] h u g = tt
  territories-kept team_id version teams (d ∷ doctors) h u (inl s) = (
    any-kept team_id version (renamed (strip name)) (names env d.territory) target teams h u
        (names-renamed d.territory s),
    territories-kept team_id version teams doctors h u (inl s),
  )
  territories-kept team_id version teams (d ∷ doctors) h u (inr n) =
      let (other, rest) = names-other d doctors n in
      (
        any-kept team_id version (renamed (strip name)) (names env d.territory) target teams h u
            (λ a. let clash : true ≡ false = sym a ∙ other in cc),
        territories-kept team_id version teams doctors h u (inr rest),
      )

-- If the ids of the teams are pairwise different, then after a rename, whatever its outcome, every
-- stored doctor whose territory is the name of an active team, up to outer space and case, still has
-- such a team if there was one before.
pub update_team-keeps_territories :
    (env : Env) (team_id : ℕ) (name : String) (expected_version actor : ℕ) (w : World)
    → Distinct (map team_id_of w.db.teams)
    → All
        (λ d.
          any (names env d.territory) w.db.teams ≡ true
          → any
              (names env d.territory)
              (update_team env team_id name expected_version actor w).1.db.teams
            ≡ true)
        w.db.doctors
update_team-keeps_territories env team_id name expected_version actor w u =
    elim (update_team-Renaming env team_id name expected_version actor w) [
      | inl same ↦ subst (λ ts. Kept w.db.teams ts) (sym same) (same_kept w.db.doctors)
      | inr (target, found, passed, same) ↦
          subst (λ ts. Kept w.db.teams ts) (sym same)
            (territories-kept env name target team_id expected_version w.db.teams w.db.doctors found
              u passed)
    ]
  where
    Kept : List Team → List Team → Type 0
    Kept before after =
        All
          (λ d.
            any (names env d.territory) before ≡ true → any (names env d.territory) after ≡ true)
          w.db.doctors

    same_kept :
        (doctors : List Doctor)
        → All
            (λ d.
              any (names env d.territory) w.db.teams ≡ true
              → any (names env d.territory) w.db.teams ≡ true)
            doctors
    same_kept [] = tt
    same_kept (d ∷ doctors) = (λ h. h, same_kept doctors)
