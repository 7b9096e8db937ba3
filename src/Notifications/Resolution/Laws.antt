-- ===== src/Notifications/Resolution/Laws.antt =====
-- What `resolve` (domain/notifications.py) selects, against a description by the tables alone.
use growth_track.RowLaws.{Distinct-dedupe, contains-dedupe, length-dedupe}
use growth_track.Prelude.{
  ℕ, ◌+◌, ◌-◌, ◌≡◌, refl, inl, inr, Bool, true, ◌&&◌, ◌||◌, List, [], ◌∷◌, ◌++◌, arith, ◌==◌,
  ==_iff, Bool-cases, is_none, length, rows_where, any, dict_get, contains, dedupe, Distinct,
}
use growth_track.Models.{User, OptInConsent}
use growth_track.Session.{Database, World, ok}
use growth_track.Persistence.Consents.{is_active_for}
use growth_track.Persistence.Users.Laws.{get_many_by_ids_lem}
use growth_track.Persistence.Consents.Laws.{get_active_by_user_ids_lem}
use growth_track.Notifications.Resolution.{
  ResolvedRecipients, user_id_of, is_sendable, partition, resolve,
}
use growth_track.Notifications.Resolution.Expansion.{
  in_teams, in_lists, is_eligible_recipient, contains-append, team_ids, all_team_ids, all_list_ids,
  expand_teams-eq, expand_lists-eq, contains-all_team_ids, contains-all_list_ids,
}

-- Fetching the users of the deduplicated ids loses none of them.
dict_get-rows_where :
    (k : ℕ) (ids : List ℕ) (us : List User)
    → contains k ids ≡ true
    → dict_get user_id_of k (rows_where (λ u. contains u.id ids) us) ≡ dict_get user_id_of k us
dict_get-rows_where k ids [] h = refl
dict_get-rows_where k ids (u ∷ us) h = elim (Bool-cases (u.id == k)) [
  | inl e ↦
      let h' : contains u.id ids ≡ true = rw ((==_iff u.id k).0 e) h in
      ground (arith, dict_get-rows_where k ids us h)
  | inr e ↦ ground (arith, dict_get-rows_where k ids us h)
]

any-active_consents :
    (k : ℕ) (ids : List ℕ) (cs : List OptInConsent)
    → contains k ids ≡ true
    → any
        (λ c. c.user_id == k)
        (rows_where (λ c. contains c.user_id ids && is_none c.revoked_at) cs)
      ≡ any (is_active_for k) cs
any-active_consents k ids [] h = refl
any-active_consents k ids (c ∷ cs) h = elim (Bool-cases (c.user_id == k)) [
  | inl e ↦
      let h' : contains c.user_id ids ≡ true = rw ((==_iff c.user_id k).0 e) h in
      ground (arith, any-active_consents k ids cs h)
  | inr e ↦ ground (arith, any-active_consents k ids cs h)
]

-- The loop splits the ids.
partition_counts :
    (us : List User) (cs : List OptInConsent) (ids : List ℕ)
    → length ids ≡ length (partition us cs ids).0 + (partition us cs ids).1
unfolding partition
partition_counts us cs [] = omega arith
partition_counts us cs (k ∷ ids) = ground (arith, partition_counts us cs ids)

contains-partition :
    (us : List User) (cs : List OptInConsent) (k : ℕ) (ids : List ℕ)
    → contains k (partition us cs ids).0 ≡ (contains k ids && is_sendable us cs k)
unfolding partition
contains-partition us cs k [] = refl
contains-partition us cs k (j ∷ ids) = elim (Bool-cases (j == k)) [
  | inl e ↦ rw ((==_iff j k).0 e) (ground (arith, contains-partition us cs k ids))
  | inr e ↦ ground (arith, contains-partition us cs k ids)
]

Distinct-partition :
    (us : List User) (cs : List OptInConsent) (ids : List ℕ)
    → Distinct ids
    → Distinct (partition us cs ids).0
unfolding partition
Distinct-partition us cs [] h = tt
Distinct-partition us cs (k ∷ ids) h =
    ground (arith, Distinct-partition us cs ids h.1, contains-partition us cs k ids)

-- The candidates of a selection.
pub is_selected : Database → List ℕ → List ℕ → List ℕ → ℕ → Bool
unfolding in_teams in_lists
is_selected d user_ids team_ids recipient_list_ids k =
    contains k user_ids || (in_teams d k team_ids || in_lists d k recipient_list_ids)

-- The answer of `resolve` as a function of the tables.
candidates : Database → List ℕ → List ℕ → List ℕ → List ℕ
candidates d us ts ls = us ++ (all_team_ids d ts ++ all_list_ids d ls)

split_ids : Database → List ℕ → List ℕ × ℕ
split_ids d ids =
    partition (rows_where (λ u. contains u.id ids) d.users)
      (rows_where (λ c. contains c.user_id ids && is_none c.revoked_at) d.opt_in_consents) ids

resolved : Database → List ℕ → ResolvedRecipients
resolved d ids = record {
  selected_count = length ids;
  overlap_count = length ids - length (dedupe ids);
  ineligible_count = (split_ids d (dedupe ids)).1;
  unique_count = length (split_ids d (dedupe ids)).0;
  recipient_user_ids = (split_ids d (dedupe ids)).0;
}

resolve-eq :
    (us ts ls : List ℕ) (w : World)
    → resolve us ts ls w ≡ (ok (resolved w.db (candidates w.db us ts ls)), w)
unfolding resolve resolved split_ids candidates
resolve-eq us ts ls w =
    rw (expand_teams-eq ts w, expand_lists-eq ls w, get_many_by_ids_lem, get_active_by_user_ids_lem)

contains-split_ids :
    (d : Database) (k : ℕ) (ids : List ℕ)
    → contains k (split_ids d ids).0 ≡ (contains k ids && is_eligible_recipient d k)
unfolding split_ids is_eligible_recipient
contains-split_ids d k ids = elim (Bool-cases (contains k ids)) [
  | inl e ↦ rw (
    contains-partition,
    dict_get-rows_where k ids d.users e,
    any-active_consents k ids d.opt_in_consents e,
  )
  | inr e ↦ rw (contains-partition, e)
]

contains-candidates :
    (d : Database) (us ts ls : List ℕ) (k : ℕ)
    → contains k (candidates d us ts ls) ≡ is_selected d us ts ls k
unfolding candidates is_selected
contains-candidates d us ts ls k =
    rw (contains-append, contains-append, contains-all_team_ids, contains-all_list_ids)

-- `resolve` always answers, changes nothing and accounts for every selected id: as a cross-mechanism
-- duplicate, as ineligible or as a recipient. No recipient is listed twice.
pub resolve_accounts :
    (user_ids team_ids recipient_list_ids : List ℕ) (w : World)
    → (r : ResolvedRecipients) × (resolve user_ids team_ids recipient_list_ids w ≡ (ok r, w))
      × (r.selected_count ≡ r.overlap_count + r.ineligible_count + r.unique_count)
      × (r.unique_count ≡ length r.recipient_user_ids)
      × Distinct r.recipient_user_ids
unfolding resolved split_ids
resolve_accounts us ts ls w =
    let ids = candidates w.db us ts ls in
    (
      resolved w.db ids,
      resolve-eq us ts ls w,
      omega (arith, length-dedupe ids, partition_counts _ _ (dedupe ids)),
      refl,
      Distinct-partition _ _ (dedupe ids) (Distinct-dedupe ids),
    )

-- A user is a recipient exactly if the selection reaches it (by its id, by an active team that it
-- stands in or by an active list with it as a member) and it is eligible: found, active, with a
-- mobile number and an active consent.
pub resolve_recipient_iff :
    (user_ids team_ids recipient_list_ids : List ℕ) (w : World) (r : ResolvedRecipients)
    (w' : World)
    → resolve user_ids team_ids recipient_list_ids w ≡ (ok r, w')
    → (k : ℕ)
    → contains k r.recipient_user_ids
      ≡ (is_selected w.db user_ids team_ids recipient_list_ids k && is_eligible_recipient w.db k)
unfolding resolved
resolve_recipient_iff us ts ls w r w' h k =
    let same : ok r ≡ ok (resolved w.db (candidates w.db us ts ls)) = cc (resolve-eq us ts ls w) in
    let e : r ≡ resolved w.db (candidates w.db us ts ls) = cc in
    let ids = candidates w.db us ts ls in
    rw (
      e,
      contains-split_ids w.db k (dedupe ids),
      contains-dedupe k ids,
      contains-candidates w.db us ts ls k,
    )
