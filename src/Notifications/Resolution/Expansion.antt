-- ===== src/Notifications/Resolution/Expansion.antt =====
-- What the two loops of `resolve` over teams and lists collect (domain/notifications.py).
use growth_track.RowLaws.{find?-passes}
use growth_track.Prelude.{
  ℕ, ◌≡◌, refl, inl, inr, Bool, false, ◌&&◌, ◌||◌, Option, none, some, List, [], ◌∷◌, ◌++◌, map,
  arith, ◌==◌, if◌then◌else◌, ==_iff, Option-cases, rows_where, find?, any, dict_get, contains,
}
use growth_track.Models.{is_active_team, is_active_list, User, Team}
use growth_track.Session.{RecipientListRow, Database, World, ok}
use growth_track.Persistence.Users.{id_is}
use growth_track.Persistence.RecipientLists.{belongs_to, member_of}
use growth_track.Persistence.Consents.{is_active_for}
use growth_track.Notifications.Resolution.{
  user_id_of, team_expansion, expand_teams, expand_lists, is_reachable,
}

-- An active team.
abbrev pub active_team : Option Team → Bool
active_team none = false
active_team (some t) = is_active_team t.status

abbrev pub active_list : Option RecipientListRow → Bool
active_list none = false
active_list (some l) = is_active_list l.status

-- The user stands in an active team of the selection.
unfoldable pub in_teams : Database → ℕ → List ℕ → Bool
in_teams d k = any λ t.
    active_team (find? (λ team. team.id == t) d.teams)
    && any (λ u. u.id == k && id_is u.team_id t) d.users

-- The user is a member of an active list of the selection.
unfoldable pub in_lists : Database → ℕ → List ℕ → Bool
in_lists d k = any λ l.
    active_list (find? (λ row. row.id == l) d.recipient_lists)
    && any (λ m. belongs_to l m && member_of m == k) d.recipient_list_members

-- An active user with a mobile number and an active consent.
unfoldable pub is_eligible_recipient : Database → ℕ → Bool
is_eligible_recipient d k =
    is_reachable (dict_get user_id_of k d.users) && any (is_active_for k) d.opt_in_consents

pub contains-append :
    (k : ℕ) (xs ys : List ℕ) → contains k (xs ++ ys) ≡ (contains k xs || contains k ys)
contains-append k [] ys = refl
contains-append k (x ∷ xs) ys = ground (arith, contains-append k xs ys)

contains-members :
    (k t : ℕ) (us : List User)
    → contains k (map user_id_of (rows_where (λ u. id_is u.team_id t) us))
      ≡ any (λ u. u.id == k && id_is u.team_id t) us
contains-members k t [] = refl
contains-members k t (u ∷ us) = ground (arith, contains-members k t us)

contains-list_members :
    (k l : ℕ) (ms : List (ℕ × ℕ))
    → contains k (map member_of (rows_where (belongs_to l) ms))
      ≡ any (λ m. belongs_to l m && member_of m == k) ms
contains-list_members k l [] = refl
contains-list_members k l (m ∷ ms) = ground (arith, contains-list_members k l ms)

-- The members that the two loops collect.
pub team_ids : Database → ℕ → Option Team → List ℕ
team_ids d t none = []
team_ids d t (some team) =
    if is_active_team team.status
    then map user_id_of (rows_where (λ u. id_is u.team_id t) d.users)
    else []

pub all_team_ids : Database → List ℕ → List ℕ
all_team_ids d [] = []
all_team_ids d (t ∷ ts) = team_ids d t (find? (λ team. team.id == t) d.teams) ++ all_team_ids d ts

list_ids : Database → Option RecipientListRow → List ℕ
list_ids d none = []
list_ids d (some row) =
    if is_active_list row.status
    then map member_of (rows_where (belongs_to row.id) d.recipient_list_members)
    else []

pub all_list_ids : Database → List ℕ → List ℕ
all_list_ids d [] = []
all_list_ids d (l ∷ ls) =
    list_ids d (find? (λ row. row.id == l) d.recipient_lists) ++ all_list_ids d ls

team_expansion-eq :
    (t : ℕ) (o : Option Team) (w : World) → team_expansion t o w ≡ (ok (team_ids w.db t o), w)
unfolding team_expansion team_ids
team_expansion-eq t none w = refl
team_expansion-eq t (some team) w = refl

pub expand_teams-eq : (ts : List ℕ) (w : World) → expand_teams ts w ≡ (ok (all_team_ids w.db ts), w)
unfolding expand_teams all_team_ids team_ids
expand_teams-eq [] w = refl
expand_teams-eq (t ∷ ts) w =
    rw (team_expansion-eq t (find? (λ team. team.id == t) w.db.teams) w, expand_teams-eq ts w)

pub expand_lists-eq : (ls : List ℕ) (w : World) → expand_lists ls w ≡ (ok (all_list_ids w.db ls), w)
unfolding expand_lists all_list_ids list_ids
expand_lists-eq [] w = refl
expand_lists-eq (l ∷ ls) w = elim (Option-cases (find? (λ row. row.id == l) w.db.recipient_lists)) [
  | inl e ↦ rw (e, expand_lists-eq ls w)
  | inr (row, e) ↦ rw (e, expand_lists-eq ls w)
]

pub contains-all_team_ids :
    (d : Database) (k : ℕ) (ts : List ℕ) → contains k (all_team_ids d ts) ≡ in_teams d k ts
unfolding all_team_ids in_teams team_ids
contains-all_team_ids d k [] = refl
contains-all_team_ids d k (t ∷ ts) = elim (Option-cases (find? (λ team. team.id == t) d.teams)) [
  | inl e ↦ rw e (contains-all_team_ids d k ts)
  | inr (team, e) ↦ rw e (
      ground (
        arith,
        contains-all_team_ids d k ts,
        contains-append k (map user_id_of (rows_where (λ u. id_is u.team_id t) d.users))
            (all_team_ids d ts),
        contains-members k t d.users,
      ))
]

pub contains-all_list_ids :
    (d : Database) (k : ℕ) (ls : List ℕ) → contains k (all_list_ids d ls) ≡ in_lists d k ls
unfolding all_list_ids in_lists list_ids
contains-all_list_ids d k [] = refl
contains-all_list_ids d k (l ∷ ls) =
    elim (Option-cases (find? (λ row. row.id == l) d.recipient_lists)) [
      | inl e ↦ rw e (contains-all_list_ids d k ls)
      | inr (row, e) ↦
          let same : row.id ≡ l =
            (==_iff row.id l).0 (find?-passes (λ r. r.id == l) d.recipient_lists e) in
          rw (e, same)
            (ground (
              arith,
              contains-all_list_ids d k ls,
              contains-append k (map member_of (rows_where (belongs_to l) d.recipient_list_members))
                  (all_list_ids d ls),
              contains-list_members k l d.recipient_list_members,
            ))
    ]
