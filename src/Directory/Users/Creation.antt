-- ===== src/Directory/Users/Creation.antt =====
-- What creating a user does (UserDirectoryService.create_user in domain/recipients.py).
use growth_track.Prelude.{
  ℕ, suc, ◌≤◌, String, subst, ◌≡◌, refl, sym, ap, ◌∙◌, ◌⊎◌, inl, inr, true, false, none, some, List,
  [], ◌∷◌, arith, str_eq, eq_iff, ◌==◌, Bool-cases, Option-cases, length, rows_where, find?,
  count_where,
}
use growth_track.RowLaws.{count_where-rows_where}
use growth_track.Models.{is_administrator, is_active_team, Role, UserStatus, ThemePreference, User}
use growth_track.Session.{Exc, World, Env, Outcome, ok, raised}
use growth_track.Persistence.Users.{holds_mobile}
use growth_track.Directory.Users.{ensure_team_active, create_user}

-- No mobile number belongs to two active users.
abbrev pub MobilesUnique : List User → Type 0
MobilesUnique users = (mobile : String) → count_where (holds_mobile mobile) users ≤ 1

-- An active user with the name, the number, the role and the team asked for, and no credentials.
abbrev pub Requested : String → String → Role → ℕ → User → Type 0
Requested name mobile role team_id u =
    (u.mobile ≡ some mobile)
    × (u.name ≡ some name)
    × (u.role ≡ role)
    × (u.team_id ≡ some team_id)
    × (u.status ≡ UserStatus.active)
    × (u.username ≡ none)
    × (u.hashed_password ≡ none)

pub ensure_team_active_result :
    (team_id : ℕ) (w : World)
    → ((e : Exc) × (ensure_team_active team_id w ≡ (raised e, w)))
      ⊎ (ensure_team_active team_id w ≡ (ok tt, w))
unfolding ensure_team_active
ensure_team_active_result team_id w =
    elim (Option-cases (find? (λ t. t.id == team_id) w.db.teams)) [
      | inl h ↦ inl (Exc.team_not_found, rw h)
      | inr (t, h) ↦ elim (Bool-cases (is_active_team t.status)) [
        | inl a ↦ inr (rw (h, a))
        | inr a ↦ inl (Exc.team_inactive, rw (h, a))
      ]
    ]

module _ (env : Env) (name mobile : String) (role : Role) (team_id actor : ℕ) (w : World) where
  abbrev created : Outcome User × World
  created = create_user env name mobile role team_id actor w

  -- A user is created, with the role asked for, an empty lockout state and no credentials, or
  -- nothing changes.
  abbrev pub Creation : Type 0
  Creation =
      ((e : Exc) × (created ≡ (raised e, w)))
      ⊎ ((u : User) × (created.0 ≡ ok u)
          × (created.1.db.users ≡ u ∷ w.db.users)
          × (is_administrator u.role ≡ false)
          × Requested name mobile role team_id u
          × (count_where (holds_mobile mobile) w.db.users ≡ 0))

  create_user-refused :
      (e : Exc)
      → (is_administrator role ≡ true) × (e ≡ Exc.role_not_allowed)
        ⊎ (is_administrator role ≡ false) × (ensure_team_active team_id w ≡ (raised e, w))
      → created ≡ (raised e, w)
  unfolding create_user
  create_user-refused e (inl (a, same)) = rw (a, same)
  create_user-refused e (inr (a, t)) = rw (a, t)

  -- The row that a creation writes.
  abbrev new_user : User
  new_user = record {
    id = env.uuid4 (suc w.calls);
    username = none;
    hashed_password = none;
    role = role;
    status = UserStatus.active;
    version = 1;
    created_at = env.now w.calls;
    name = some name;
    mobile = some mobile;
    team_id = some team_id;
    failed_login_count = 0;
    locked_until = none;
    theme_preference = ThemePreference.system;
  }

  create_user-mobile :
      (rows : List User)
      → is_administrator role ≡ false
      → ensure_team_active team_id w ≡ (ok tt, w)
      → rows_where (holds_mobile mobile) w.db.users ≡ rows
      → Creation
  unfolding create_user
  create_user-mobile [] a t h = inr (
    new_user,
    rw (a, t, h),
    rw (a, t, h),
    a,
    (refl, refl, refl, refl, refl, refl, refl),
    sym (count_where-rows_where _ w.db.users) ∙ ap length h,
  )
  create_user-mobile (u ∷ []) a t h = inl (Exc.mobile_taken, rw (a, t, h))
  create_user-mobile (u ∷ v ∷ rows) a t h = inl (Exc.multiple_results_found, rw (a, t, h))

  one_more_mobile :
      (m : String) (u : User) (users : List User)
      → u.mobile ≡ some mobile
      → count_where (holds_mobile mobile) users ≡ 0
      → count_where (holds_mobile m) users ≤ 1
      → count_where (holds_mobile m) (u ∷ users) ≤ 1
  one_more_mobile m u users number free h = elim (Bool-cases (str_eq mobile m)) [
    | inl e ↦
        let same : mobile ≡ m = (eq_iff mobile m).0 e in
        let none_yet = subst (λ k. count_where (holds_mobile k) users ≡ 0) same free in
        ground (arith, none_yet)
    | inr e ↦ let holds : holds_mobile m u ≡ false = rw (number, e) in ground (arith, holds, h)
  ]

  -- Creating a user either raises and changes nothing, or answers with a user that is no
  -- administrator, that is active and has the fields asked for, and that is the one new row; then no
  -- active user held the number before.
  pub create_user_cases : Creation
  create_user_cases = elim (Bool-cases (is_administrator role)) [
    | inl a ↦ inl (Exc.role_not_allowed, create_user-refused Exc.role_not_allowed (inl (a, refl)))
    | inr a ↦ elim (ensure_team_active_result team_id w) [
      | inl (e, t) ↦ inl (e, create_user-refused e (inr (a, t)))
      | inr t ↦ create_user-mobile (rows_where (holds_mobile mobile) w.db.users) a t refl
    ]
  ]

  -- If no mobile number belongs to two active users, this is still so after creating a user,
  -- whether the creation succeeds or not.
  pub create_user-MobilesUnique : MobilesUnique w.db.users → MobilesUnique created.1.db.users
  create_user-MobilesUnique h m = elim create_user_cases [
    | inl (e, c) ↦
        subst (λ v. count_where (holds_mobile m) v.db.users ≤ 1) (sym (ap (λ x. x.1) c)) (h m)
    | inr (u, o, rows, role_ok, asked, free) ↦
        subst (λ users. count_where (holds_mobile m) users ≤ 1) (sym rows)
          (one_more_mobile m u w.db.users asked.0 free (h m))
  ]
