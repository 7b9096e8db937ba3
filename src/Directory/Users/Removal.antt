-- ===== src/Directory/Users/Removal.antt =====
-- What removing a user does (domain/recipients.py and domain/administrators.py).
use growth_track.Session.{Exc, World, Env, ok, raised}
use growth_track.Prelude.{
  ℕ, ◌+◌, ◌≤◌, ◌<◌, subst, ◌≡◌, refl, sym, ap, ◌⊎◌, inl, inr, true, false, ◌&&◌, none, some, List,
  [], ◌∷◌, map, arith, leb, if◌then◌else◌, ==_iff, Bool-cases, Option-cases, set_where, find?,
  count_where, contains, Distinct,
}
use growth_track.Models.{UserStatus, User}
use growth_track.Persistence.Users.{has_id, is_active_administrator}
use growth_track.Directory.Users.{ensure_can_deactivate, remove_user}

abbrev pub user_id : User → ℕ
user_id u = u.id

-- `deactivate` on one row.
abbrev pub deactivated : User → User
deactivated u = record u { status = UserStatus.inactive; version = u.version + 1 }

abbrev pub administrators : List User → ℕ
administrators = count_where is_active_administrator

deactivated-absent :
    (k : ℕ) (users : List User)
    → contains k (map user_id users) ≡ false
    → administrators (set_where (has_id k) deactivated users) ≡ administrators users
deactivated-absent k [] h = refl
deactivated-absent k (u ∷ users) h =
    let rest = deactivated-absent k users (ground (arith, h)) in
    let other : has_id k u ≡ false = ground (arith, h) in rw (other, rest)

-- Deactivating a user takes away at most that one administrator.
administrators-deactivated :
    (k : ℕ) (users : List User) {u : User}
    → Distinct (map user_id users)
    → find? (has_id k) users ≡ some u
    → administrators (set_where (has_id k) deactivated users)
        + (if is_active_administrator u then 1 else 0)
      ≡ administrators users
administrators-deactivated k [] d h = cc
administrators-deactivated k (x ∷ users) {u} d h = elim (Bool-cases (has_id k x)) [
  | inl e ↦
      let same : some x ≡ some u = rw e at h in
      let k_is : x.id ≡ k = (==_iff x.id k).0 e in
      let absent =
        deactivated-absent k users (subst (λ j. contains j (map user_id users) ≡ false) k_is d.0) in
      ground (arith, absent, same)
  | inr e ↦ ground (arith, administrators-deactivated k users d.1 (rw e at h))
]

ensure_can_deactivate-last :
    (u : User) (w : World)
    → is_active_administrator u ≡ true
    → administrators w.db.users ≤ 1
    → ensure_can_deactivate u w ≡ (raised Exc.last_administrator_error, w)
unfolding ensure_can_deactivate
ensure_can_deactivate-last u w a l =
    let few : leb (administrators w.db.users) 1 ≡ true = ground arith in rw (a, few)

ensure_can_deactivate-allowed :
    (u : User) (w : World)
    → (is_active_administrator u ≡ false) ⊎ (1 < administrators w.db.users)
    → ensure_can_deactivate u w ≡ (ok tt, w)
unfolding ensure_can_deactivate
ensure_can_deactivate-allowed u w (inl a) = rw a
ensure_can_deactivate-allowed u w (inr l) =
    let many : leb (administrators w.db.users) 1 ≡ false = ground arith in
    elim (Bool-cases (is_active_administrator u)) [ inl a ↦ rw (a, many) | inr a ↦ rw a ]

module _ (env : Env) (user_id' actor : ℕ) (w : World) where
  remove_user-unknown :
      find? (has_id user_id') w.db.users ≡ none
      → remove_user env user_id' actor w ≡ (raised Exc.user_not_found, w)
  unfolding remove_user
  remove_user-unknown h = rw h

  remove_user-last :
      (u : User)
      → find? (has_id user_id') w.db.users ≡ some u
      → is_active_administrator u ≡ true
      → administrators w.db.users ≤ 1
      → remove_user env user_id' actor w ≡ (raised Exc.last_administrator_error, w)
  unfolding remove_user
  remove_user-last u h a l = rw (h, ensure_can_deactivate-last u w a l)

  remove_user-allowed :
      (u : User)
      → find? (has_id user_id') w.db.users ≡ some u
      → (is_active_administrator u ≡ false) ⊎ (1 < administrators w.db.users)
      → ((remove_user env user_id' actor w).0 ≡ ok tt)
        × ((remove_user env user_id' actor w).1.db.users
            ≡ set_where (has_id user_id') deactivated w.db.users)
  unfolding remove_user
  remove_user-allowed u h l = rw (h, ensure_can_deactivate-allowed u w l) (refl, refl)

  -- What a removal did: it refused an unknown user, it refused to take away the last active
  -- administrator, or it deactivated the user's row alone.
  abbrev pub Removal : Type 0
  Removal =
      ((find? (has_id user_id') w.db.users ≡ none)
        × (remove_user env user_id' actor w ≡ (raised Exc.user_not_found, w)))
      ⊎ (((administrators w.db.users ≤ 1)
            × (remove_user env user_id' actor w ≡ (raised Exc.last_administrator_error, w)))
          ⊎ (((remove_user env user_id' actor w).0 ≡ ok tt)
              × ((remove_user env user_id' actor w).1.db.users
                  ≡ set_where (has_id user_id') deactivated w.db.users)))

  -- Removing a user never takes away the last active administrator: if the ids are pairwise
  -- different and there is an active administrator, there is one afterwards. The removal raises
  -- user_not_found and changes nothing if no user has the id, raises last_administrator_error and
  -- changes nothing only if there is at most one active administrator, and otherwise deactivates
  -- the rows with the id and no other.
  pub remove_user-keeps_administrator :
      Distinct (map user_id w.db.users)
      → 1 ≤ administrators w.db.users
      → (1 ≤ administrators (remove_user env user_id' actor w).1.db.users) × Removal
  remove_user-keeps_administrator d n = elim (Option-cases (find? (has_id user_id') w.db.users)) [
    | inl h ↦
        let e = remove_user-unknown h in
        (subst (λ v. 1 ≤ administrators v.db.users) (sym (ap (λ x. x.1) e)) n, inl (h, e))
    | inr (u, h) ↦
        let total = administrators-deactivated user_id' w.db.users d h in
        elim (Bool-cases (is_active_administrator u && leb (administrators w.db.users) 1)) [
          | inl c ↦
              let few : administrators w.db.users ≤ 1 = ground arith in
              let e = remove_user-last u h (ground arith) few in
              (
                subst (λ v. 1 ≤ administrators v.db.users) (sym (ap (λ x. x.1) e)) n,
                inr (inl (few, e)),
              )
          | inr c ↦
              let (o, e) = remove_user-allowed u h (elim (Bool-cases (is_active_administrator u)) [
                | inl a ↦ inr (ground arith)
                | inr a ↦ inl a
              ]) in
              (
                subst (λ users. 1 ≤ administrators users) (sym e) (ground (arith, total)),
                inr (inr (o, e)),
              )
        ]
  ]
