-- ===== src/Notifications/Resolution.antt =====
-- RecipientResolutionService.resolve (domain/notifications.py).
pub mod Laws
pub mod Expansion
use growth_track.Prelude.{
  ℕ, ◌+◌, ◌-◌, Bool, false, ◌&&◌, Option, none, some, List, [], ◌∷◌, ◌++◌, map, ◌==◌, if◌then◌else◌,
  is_some, length, any, dict_get, dedupe,
}
use growth_track.Models.{
  is_active_user, is_active_team, is_active_list, User, Team, RecipientList, OptInConsent,
}
use growth_track.Session.{Session, return, ◌>>=◌, ◌>>◌}
use growth_track.Persistence.Users
use growth_track.Persistence.Teams
use growth_track.Persistence.RecipientLists
use growth_track.Persistence.Consents

pub record ResolvedRecipients : Type 0 where
  pub selected_count : ℕ
  pub overlap_count : ℕ
  pub ineligible_count : ℕ
  pub unique_count : ℕ
  pub recipient_user_ids : List ℕ

abbrev pub user_id_of : User → ℕ
user_id_of u = u.id

-- The members of a team, unless it is missing or archived.
unfoldable pub team_expansion : ℕ → Option Team → Session (List ℕ)
unfolding Users.list_by_team_id
team_expansion team_id none = return []
team_expansion team_id (some team) = do
  members ← Users.list_by_team_id team_id
  return (if is_active_team team.status then map user_id_of members else [])

unfoldable pub list_expansion : Option RecipientList → List ℕ
list_expansion none = []
list_expansion (some l) = if is_active_list l.status then l.member_user_ids else []

unfoldable pub expand_teams : List ℕ → Session (List ℕ)
unfolding Teams.get_by_id team_expansion
expand_teams [] = return []
expand_teams (team_id ∷ team_ids) = do
  team ← Teams.get_by_id team_id
  ids ← team_expansion team_id team
  rest ← expand_teams team_ids
  return (ids ++ rest)

unfoldable pub expand_lists : List ℕ → Session (List ℕ)
unfolding RecipientLists.get_by_id list_expansion
expand_lists [] = return []
expand_lists (list_id ∷ list_ids) = do
  l ← RecipientLists.get_by_id list_id
  rest ← expand_lists list_ids
  return (list_expansion l ++ rest)

-- A user that was found, is active and has a mobile number.
abbrev pub is_reachable : Option User → Bool
is_reachable none = false
is_reachable (some u) = is_active_user u.status && is_some u.mobile

-- The test of the last loop, from the users and the active consents that were fetched.
abbrev pub is_sendable : List User → List OptInConsent → ℕ → Bool
is_sendable users consents user_id =
    is_reachable (dict_get user_id_of user_id users) && any (λ c. c.user_id == user_id) consents

-- The last loop: the sendable ids in order, and `ineligible_count`.
unfoldable pub partition : List User → List OptInConsent → List ℕ → List ℕ × ℕ
partition users consents [] = ([], 0)
partition users consents (user_id ∷ ids) =
    let (sendable_ids, ineligible_count) = partition users consents ids in
    if is_sendable users consents user_id
    then (user_id ∷ sendable_ids, ineligible_count)
    else (sendable_ids, ineligible_count + 1)

unfoldable pub resolve : List ℕ → List ℕ → List ℕ → Session ResolvedRecipients
unfolding expand_teams expand_lists Users.get_many_by_ids Consents.get_active_by_user_ids partition
resolve user_ids team_ids recipient_list_ids = do
  from_teams ← expand_teams team_ids
  from_lists ← expand_lists recipient_list_ids
  let expanded_ids = user_ids ++ (from_teams ++ from_lists)
  let deduped_ids = dedupe expanded_ids
  resolved_users ← Users.get_many_by_ids deduped_ids
  active_consents ← Consents.get_active_by_user_ids deduped_ids
  let (sendable_ids, ineligible_count) = partition resolved_users active_consents deduped_ids
  return (record {
    selected_count = length expanded_ids;
    overlap_count = length expanded_ids - length deduped_ids;
    ineligible_count = ineligible_count;
    unique_count = length sendable_ids;
    recipient_user_ids = sendable_ids;
  })
