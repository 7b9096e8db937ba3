-- ===== src/Api/Users/Laws.antt =====
-- What the routes of /users commit.
use growth_track.Models.{Role, User, Team}
use growth_track.Session.{scalar_one_or_none, World, Env, Outcome, ok, raised}
use growth_track.Api.Replies.{Reply, done, HttpError, refuse_listed, settle_call, commit_or}
use growth_track.Api.Users.{
  DirectoryUserResponse, create_user, create_errors, mobile_taken, respond_created,
}
use growth_track.Persistence.Teams
use growth_track.Persistence.Users
use growth_track.SessionLaws.{IsQuiet, quiet, return-IsQuiet, raise-IsQuiet}
use growth_track.Persistence.Users.{holds_mobile}
use growth_track.Directory.Users as UserDirectory
use growth_track.Directory.Users.Creation.{Requested, create_user_cases}
use growth_track.Prelude.{
  ℕ, String, ◌≡◌, refl, ◌⊎◌, inl, inr, Bool, true, false, Option, none, some, List, [], ◌∷◌,
  Bool-cases, count_where,
}

abbrev pub is_done : {A : Type 0} → Outcome (Reply A) → Bool
is_done (ok (done a)) = true
is_done _ = false

-- A refusal that leaves the tables, stored and not, as they were stored.
abbrev pub Untouched : {A : Type 0} → World → Outcome (Reply A) × World → Type 0
Untouched w x = (is_done x.0 ≡ false) × (x.1.committed ≡ w.committed) × (x.1.db ≡ w.committed)

refuse_listed-Untouched :
    (A : Type 0) (o : Option HttpError) (w : World)
    → w.db ≡ w.committed
    → Untouched w (refuse_listed {A = A} o w)
refuse_listed-Untouched A none w h = (refl, refl, refl)
refuse_listed-Untouched A (some e) w h = (refl, h, h)

-- A response, with one new user stored, who has the fields asked for and whose number was free.
abbrev pub Stored :
    String → String → Role → ℕ → World → Outcome (Reply DirectoryUserResponse) × World → Type 0
Stored name mobile role team_id w x =
    (is_done x.0 ≡ true)
    × (x.1.committed ≡ x.1.db)
    × (u : User) × (x.1.committed.users ≡ u ∷ w.db.users)
    × Requested name mobile role team_id u
    × (count_where (holds_mobile mobile) w.db.users ≡ 0)

answer_created :
    (races : ℕ → Bool) (name mobile : String) (role : Role) (team_id : ℕ) (w : World)
    (x : Outcome User × World) (u : User)
    → x.0 ≡ ok u
    → x.1.committed ≡ w.committed
    → x.1.db.users ≡ u ∷ w.db.users
    → Requested name mobile role team_id u
    → count_where (holds_mobile mobile) w.db.users ≡ 0
    → Untouched w (
        settle_call
          (λ e. refuse_listed (create_errors e))
          (λ user. commit_or races mobile_taken (respond_created user))
          x)
      ⊎ Stored name mobile role team_id w (
          settle_call
            (λ e. refuse_listed (create_errors e))
            (λ user. commit_or races mobile_taken (respond_created user))
            x)
unfolding respond_created Teams.list_all_full
answer_created races name mobile role team_id w (raised e, v) u s c users asked free = cc
answer_created races name mobile role team_id w (ok user, v) u s c users asked free =
    elim (Bool-cases (races v.calls)) [
      | inl e ↦ inl (rw e (refl, c, c))
      | inr e ↦ inr (rw e (refl, refl, u, users, asked, free))
    ]

require_team-IsQuiet : (o : Option Team) → IsQuiet (UserDirectory.require_team o)
require_team-IsQuiet none = raise-IsQuiet _
require_team-IsQuiet (some t) = return-IsQuiet t

first_or_raise-IsQuiet : {A : Type 0} (xs : List A) → IsQuiet (scalar_one_or_none xs)
first_or_raise-IsQuiet [] = return-IsQuiet none
first_or_raise-IsQuiet (a ∷ []) = return-IsQuiet (some a)
first_or_raise-IsQuiet (a ∷ b ∷ xs) = raise-IsQuiet _

create_user-IsQuiet :
    (env : Env) (name mobile : String) (role : Role) (team_id actor : ℕ)
    → IsQuiet (UserDirectory.create_user env name mobile role team_id actor)
unfolding UserDirectory.create_user UserDirectory.ensure_team_active Teams.get_by_id
    Users.get_by_mobile Users.add
create_user-IsQuiet env name mobile role team_id actor =
    search (quiet, require_team-IsQuiet, first_or_raise-IsQuiet) depth 40

module _ (env : Env) (races : ℕ → Bool) (name mobile : String) (role : Role)
    (team_id current_user_id : ℕ) (w : World) where
  -- If a request to create a user starts on the stored tables, then it is answered with a body and
  -- has stored exactly one more user, with the number and the other fields asked for, where no active
  -- user held that number before, or it is refused and
  -- nothing has changed, also if a concurrent request has taken the number.
  pub create_user-Stored :
      w.db ≡ w.committed
      → Untouched w (create_user env races name mobile role team_id current_user_id w)
        ⊎ Stored name mobile role team_id w
            (create_user env races name mobile role team_id current_user_id w)
  unfolding create_user
  create_user-Stored h = elim (create_user_cases env name mobile role team_id current_user_id w) [
    | inl (e, s) ↦ inl (rw s (refuse_listed-Untouched _ (create_errors e) w h))
    | inr (u, s, users, admin, asked, free) ↦
        answer_created races name mobile role team_id w
          (UserDirectory.create_user env name mobile role team_id current_user_id w) u s
          ((create_user-IsQuiet env name mobile role team_id current_user_id).keeps_committed w)
          users asked free
  ]
