-- ===== src/Persistence/Users.antt =====
-- SqlAlchemyUserRepository (adapters/persistence/users.py).
pub mod Laws
use growth_track.Prelude.{
  ℕ, ◌+◌, compare, String, Bool, false, ◌&&◌, Option, none, some, List, [], ◌∷◌, str_eq, ◌==◌,
  rows_where, set_where, find?, any, count_where, contains, sorted,
}
use growth_track.Models.{is_administrator, is_active_user, UserStatus, ThemePreference, User}
use growth_track.Session.{Session, return, query, scalar_one_or_none, write, ◌>>=◌, ◌>>◌, Database}

-- A nullable column compared with a value.
abbrev pub text_is : Option String → String → Bool
text_is none s = false
text_is (some t) s = str_eq t s

abbrev pub id_is : Option ℕ → ℕ → Bool
id_is none k = false
id_is (some j) k = j == k

abbrev pub has_id : ℕ → User → Bool
has_id user_id u = u.id == user_id

-- UPDATE users SET f WHERE id = user_id.
abbrev pub update_user_row : ℕ → (User → User) → Database → Database
update_user_row user_id f d = record d { users = set_where (has_id user_id) f d.users }

unfoldable pub get_by_username : String → Session (Option User)
get_by_username username = do
  rows ← query (λ d. rows_where (λ u. text_is u.username username) d.users)
  scalar_one_or_none rows

unfoldable pub get_by_id : ℕ → Session (Option User)
get_by_id user_id = query (λ d. find? (has_id user_id) d.users)

unfoldable pub add : User → Session (Unit {0})
add user = write (λ d. record d { users = user ∷ d.users })

unfoldable pub has_any_administrator : Session Bool
has_any_administrator = query (λ d. any (λ u. is_administrator u.role) d.users)

abbrev pub is_active_administrator : User → Bool
is_active_administrator u = is_administrator u.role && is_active_user u.status

unfoldable pub count_active_administrators : Session ℕ
count_active_administrators = query (λ d. count_where is_active_administrator d.users)

-- The lock only orders transactions: it changes no row, and a transaction that holds it sees what
-- the earlier holders have committed.
unfoldable pub acquire_bootstrap_lock : Session (Unit {0})
acquire_bootstrap_lock = return tt

unfoldable pub acquire_administrator_removal_lock : Session (Unit {0})
acquire_administrator_removal_lock = return tt

abbrev pub failed_count : Option User → ℕ
failed_count none = 0
failed_count (some u) = u.failed_login_count

unfoldable pub increment_failed_login_count : ℕ → Session ℕ
increment_failed_login_count user_id = do
  write (update_user_row user_id (λ u. record u { failed_login_count = u.failed_login_count + 1 }))
  query (λ d. failed_count (find? (has_id user_id) d.users))

unfoldable pub lock_until : ℕ → ℕ → Session (Unit {0})
lock_until user_id until =
    write (update_user_row user_id (λ u. record u { locked_until = some until }))

unfoldable pub clear_lockout : ℕ → Session (Unit {0})
clear_lockout user_id =
    write (update_user_row user_id (λ u. record u { failed_login_count = 0; locked_until = none }))

unfoldable pub update_password : ℕ → String → Session (Unit {0})
update_password user_id hashed_password = write (
    update_user_row user_id
      (λ u. record u { hashed_password = some hashed_password; version = u.version + 1 }))

unfoldable pub update_theme_preference : ℕ → ThemePreference → Session (Unit {0})
update_theme_preference user_id theme_preference =
    write (update_user_row user_id (λ u. record u { theme_preference = theme_preference }))

-- The active user with a mobile number: ix_users_mobile_active_uq.
abbrev pub holds_mobile : String → User → Bool
holds_mobile mobile u = text_is u.mobile mobile && is_active_user u.status

unfoldable pub get_by_mobile : String → Session (Option User)
get_by_mobile mobile = do
  rows ← query (λ d. rows_where (holds_mobile mobile) d.users)
  scalar_one_or_none rows

abbrev pub has_id_and_version : ℕ → ℕ → User → Bool
has_id_and_version user_id expected_version u = u.id == user_id && u.version == expected_version

-- A conditional UPDATE; the result is `rowcount > 0`.
unfoldable pub update_directory_fields : ℕ → String → String → ℕ → ℕ → Session Bool
update_directory_fields user_id name mobile team_id expected_version = do
  matched ← query (λ d. any (has_id_and_version user_id expected_version) d.users)
  write (λ d. record d {
    users =
        set_where (has_id_and_version user_id expected_version)
          (λ u. record u {
            name = some name;
            mobile = some mobile;
            team_id = some team_id;
            version = u.version + 1;
          })
          d.users;
  })
  return matched

unfoldable pub deactivate : ℕ → Session (Unit {0})
deactivate user_id = write (
    update_user_row user_id
      (λ u. record u { status = UserStatus.inactive; version = u.version + 1 }))

unfoldable pub get_many_by_ids : List ℕ → Session (List User)
get_many_by_ids [] = return []
get_many_by_ids (i ∷ ids) = query (λ d. rows_where (λ u. contains u.id (i ∷ ids)) d.users)

unfoldable pub list_by_team_id : ℕ → Session (List User)
list_by_team_id team_id = query (λ d. rows_where (λ u. id_is u.team_id team_id) d.users)

unfoldable pub list_all : Session (List User)
list_all = query (λ d. sorted (λ u v. compare u.created_at v.created_at) d.users)
