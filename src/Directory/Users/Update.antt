-- ===== src/Directory/Users/Update.antt =====
-- What editing a user does (UserDirectoryService.update_user in domain/recipients.py).
use growth_track.Prelude.{
  ℕ, ◌+◌, String, subst, ◌≡◌, refl, ◌⊎◌, inl, inr, true, false, Option, none, some, List, [], ◌∷◌,
  arith, ◌==◌, Bool-cases, Option-cases, rows_where, set_where, find?, any, count_where, not, ◌&&◌,
  sym, ◌∙◌,
}
use growth_track.SortLaws.{count-filtered}
use growth_track.Models.{is_administrator, is_active_team, Team, User, OptInConsent}
use growth_track.Session.{Exc, World, Env, Outcome, ok, raised, scalar_one_or_none}
use growth_track.Persistence.Users.{has_id, has_id_and_version, holds_mobile}
use growth_track.Persistence.Consents.{is_active_for}
use growth_track.Persistence.Users
use growth_track.Directory.Users.{
  is_other_user, differs, ensure_team_active, auto_revoke, update_user,
}
use growth_track.Directory.Users.Creation.{ensure_team_active_result}

-- No active consent of the user is left.
abbrev pub NoActiveConsent : ℕ → World → Type 0
NoActiveConsent user_id w = any (is_active_for user_id) w.db.opt_in_consents ≡ false

pub revoked-none :
    (user_id t : ℕ) (rows : List OptInConsent)
    → any
        (is_active_for user_id)
        (set_where (is_active_for user_id) (λ c. record c { revoked_at = some t }) rows)
      ≡ false
revoked-none user_id t [] = refl
revoked-none user_id t (c ∷ rows) = ground (arith, revoked-none user_id t rows)

module _ (env : Env) (user_id actor : ℕ) (w : World) where
  auto_revoke_lem :
      (w' : World) × (auto_revoke env user_id actor w ≡ (ok tt, w'))
      × NoActiveConsent user_id w'
      × (w'.db.users ≡ w.db.users)
  unfolding auto_revoke
  auto_revoke_lem = elim (Bool-cases (any (is_active_for user_id) w.db.opt_in_consents)) [
    | inl h ↦ (
      (auto_revoke env user_id actor w).1,
      rw h,
      rw h (revoked-none user_id (env.now w.calls) w.db.opt_in_consents),
      rw h,
    )
    | inr h ↦ (
      (auto_revoke env user_id actor w).1,
      rw h,
      rw h (revoked-none user_id (env.now w.calls) w.db.opt_in_consents),
      rw h,
    )
  ]

any-found :
    (user_id version : ℕ) (users : List User) {u : User}
    → find? (has_id user_id) users ≡ some u
    → u.version == version ≡ true
    → any (has_id_and_version user_id version) users ≡ true
any-found user_id version [] h v = cc
any-found user_id version (x ∷ users) {u} h v = elim (Bool-cases (has_id user_id x)) [
  | inl e ↦ let same : some x ≡ some u = rw e at h in ground (arith, same)
  | inr e ↦ ground (arith, any-found user_id version users (rw e at h) v)
]

-- The row with the fields of an edit.
abbrev pub edited : String → String → ℕ → User → User
edited name mobile team_id u = record u {
  name = some name;
  mobile = some mobile;
  team_id = some team_id;
  version = u.version + 1;
}

-- The team is there and active.
abbrev pub TeamActive : ℕ → World → Type 0
TeamActive team_id w =
    (t : Team) × (find? (λ t. t.id == team_id) w.db.teams ≡ some t)
    × (is_active_team t.status ≡ true)

ensure_team_active-TeamActive :
    (team_id : ℕ) (w : World) → ensure_team_active team_id w ≡ (ok tt, w) → TeamActive team_id w
unfolding ensure_team_active
ensure_team_active-TeamActive team_id w e =
    elim (Option-cases (find? (λ t. t.id == team_id) w.db.teams)) [
      | inl h ↦ let bad = rw h at e in cc
      | inr (t, h) ↦ elim (Bool-cases (is_active_team t.status)) [
        | inl a ↦ (t, h, a)
        | inr a ↦ let bad = rw (h, a) at e in cc
      ]
    ]

-- A number that the lookup leaves to the user is held by no other active user.
free_number :
    (mobile : String) (user_id : ℕ) (o : Option User) (w : World)
    → Users.get_by_mobile mobile w ≡ (ok o, w)
    → is_other_user o user_id ≡ false
    → count_where (λ v. holds_mobile mobile v && not (v.id == user_id)) w.db.users ≡ 0
unfolding Users.get_by_mobile
free_number mobile user_id o w g n =
    sym (count-filtered (λ v. not (v.id == user_id)) (holds_mobile mobile) w.db.users)
    ∙ only_own (rows_where (holds_mobile mobile) w.db.users) g
  where
    only_own :
        (rows : List User)
        → scalar_one_or_none rows w ≡ (ok o, w)
        → count_where (λ v. not (v.id == user_id)) rows ≡ 0
    only_own [] h = refl
    only_own (x ∷ []) h =
        let same : some x ≡ o = cc in
        let own : is_other_user (some x) user_id ≡ false =
          subst (λ p. is_other_user p user_id ≡ false) (sym same) n in
        ground arith
    only_own (x ∷ y ∷ rows) h = cc

module _ (env : Env) (user_id : ℕ) (name mobile : String) (team_id expected_version actor : ℕ)
    (w : World) where
  abbrev result : Outcome (Option User) × World
  result = update_user env user_id name mobile team_id expected_version actor w

  -- The guards before the UPDATE.
  module _ (u : User) (found : find? (has_id user_id) w.db.users ≡ some u) where
    refused_administrator :
        is_administrator u.role ≡ true → result ≡ (raised Exc.cannot_edit_administrator, w)
    unfolding update_user
    refused_administrator a = rw (found, a)

    refused_version :
        is_administrator u.role ≡ false
        → u.version == expected_version ≡ false
        → result ≡ (raised Exc.version_conflict, w)
    unfolding update_user
    refused_version a v = rw (found, a, v)

    refused_team :
        (e : Exc)
        → is_administrator u.role ≡ false
        → u.version == expected_version ≡ true
        → ensure_team_active team_id w ≡ (raised e, w)
        → result ≡ (raised e, w)
    unfolding update_user
    refused_team e a v t = rw (found, a, v, t)

    refused_mobile :
        (rows : List User)
        → is_administrator u.role ≡ false
        → u.version == expected_version ≡ true
        → ensure_team_active team_id w ≡ (ok tt, w)
        → rows_where (holds_mobile mobile) w.db.users ≡ rows
        → ((e : Exc) × (result ≡ (raised e, w)))
          ⊎ ((o : Option User) × (Users.get_by_mobile mobile w ≡ (ok o, w))
              × (is_other_user o user_id ≡ false))
    unfolding update_user Users.get_by_mobile
    refused_mobile [] a v t h = inr (none, rw h, refl)
    refused_mobile (x ∷ []) a v t h = elim (Bool-cases (is_other_user (some x) user_id)) [
      | inl o ↦ inl (Exc.mobile_taken, rw (found, a, v, t, h, o))
      | inr o ↦ inr (some x, rw h, o)
    ]
    refused_mobile (x ∷ y ∷ rows) a v t h = inl (Exc.multiple_results_found, rw (found, a, v, t, h))

  -- The world after the UPDATE.
  abbrev after_edit : World
  after_edit = record w {
    db = record w.db {
      users =
          set_where (has_id_and_version user_id expected_version) (edited name mobile team_id)
            w.db.users;
    };
  }

  accepted_edit :
      (u : User) (o : Option User)
      → find? (has_id user_id) w.db.users ≡ some u
      → is_administrator u.role ≡ false
      → u.version == expected_version ≡ true
      → ensure_team_active team_id w ≡ (ok tt, w)
      → Users.get_by_mobile mobile w ≡ (ok o, w)
      → is_other_user o user_id ≡ false
      → (result.0 ≡ ok (find? (has_id user_id) result.1.db.users))
        × (result.1.db.users ≡ after_edit.db.users)
        × ((differs u.mobile mobile ≡ false) ⊎ NoActiveConsent user_id result.1)
  unfolding update_user
  accepted_edit u o found a v t g n =
      let there = any-found user_id expected_version w.db.users found v in
      elim (Bool-cases (differs u.mobile mobile)) [
        | inl d ↦
            let (w', ran, none_left, same) = auto_revoke_lem env user_id actor after_edit in
            rw (found, a, v, t, g, n, there, d, ran) (refl, same, inr none_left)
        | inr d ↦ rw (found, a, v, t, g, n, there, d) (refl, refl, inl refl)
      ]

  -- Editing a user either raises and changes no table, or every guard has passed: the user exists,
  -- is no administrator and has the expected version, the team is there and active, and no other
  -- active user holds the number. Then the row of that version takes the new
  -- fields and the next version, the answer is the user as stored, and if the mobile number has
  -- changed the user has no active consent left.
  pub update_user_cases :
      ((e : Exc) × (result ≡ (raised e, w)))
      ⊎ ((u : User) × (find? (has_id user_id) w.db.users ≡ some u)
          × (is_administrator u.role ≡ false)
          × (u.version == expected_version ≡ true)
          × TeamActive team_id w
          × (count_where (λ v. holds_mobile mobile v && not (v.id == user_id)) w.db.users ≡ 0)
          × (result.0 ≡ ok (find? (has_id user_id) result.1.db.users))
          × (result.1.db.users ≡ after_edit.db.users)
          × ((differs u.mobile mobile ≡ false) ⊎ NoActiveConsent user_id result.1))
  unfolding update_user
  update_user_cases = elim (Option-cases (find? (has_id user_id) w.db.users)) [
    | inl h ↦ inl (Exc.user_not_found, rw h)
    | inr (u, h) ↦ elim (Bool-cases (is_administrator u.role)) [
      | inl a ↦ inl (Exc.cannot_edit_administrator, refused_administrator u h a)
      | inr a ↦ elim (Bool-cases (u.version == expected_version)) [
        | inr v ↦ inl (Exc.version_conflict, refused_version u h a v)
        | inl v ↦ elim (ensure_team_active_result team_id w) [
          | inl (e, t) ↦ inl (e, refused_team u h e a v t)
          | inr t ↦
              elim (refused_mobile u h (rows_where (holds_mobile mobile) w.db.users) a v t refl) [
                | inl r ↦ inl r
                | inr (o, g, n) ↦
                    let (x, y, z) = accepted_edit u o h a v t g n in
                    inr (
                      u,
                      h,
                      a,
                      v,
                      ensure_team_active-TeamActive team_id w t,
                      free_number mobile user_id o w g n,
                      x,
                      y,
                      z,
                    )
              ]
        ]
      ]
    ]
  ]
