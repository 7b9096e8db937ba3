-- ===== src/Directory/RecipientLists.antt =====
-- RecipientListDirectoryService (domain/recipients.py).
use growth_track.Prelude.{
  ℕ, String, Bool, false, not, Option, none, some, List, [], ◌∷◌, ◌==◌, is_none, is_some, length,
  dict_get, dedupe, strip,
}
use growth_track.Models.{is_active_user, RecipientListKind, User, RecipientList, Details, Detail}
use growth_track.Session.{Exc, Session, return, raise, external, ◌>>=◌, ◌>>◌, raise_if, Env}
use growth_track.Persistence.Users
use growth_track.Persistence.RecipientLists
use growth_track.Directory.Audit.{audit_now}
use growth_track.Notifications.Resolution.{user_id_of}

-- The checks on one member, in the order of the code.
abbrev pub check_member : Option User → Session (Unit {0})
check_member none = raise Exc.member_not_found
check_member (some user) = do
  raise_if (not (is_active_user user.status)) Exc.member_inactive
  raise_if (is_none user.mobile) Exc.member_not_addressable

unfoldable pub check_members : List User → List ℕ → Session (Unit {0})
check_members users [] = return tt
check_members users (user_id ∷ ids) = do
  check_member (dict_get user_id_of user_id users)
  check_members users ids

unfoldable pub ensure_members_valid : List ℕ → Session (Unit {0})
unfolding Users.get_many_by_ids check_members
ensure_members_valid [] = return tt
ensure_members_valid (i ∷ ids) = do
  users ← Users.get_many_by_ids (i ∷ ids)
  check_members users (i ∷ ids)

abbrev pub require_list : Option RecipientList → Session RecipientList
require_list none = raise Exc.recipient_list_not_found
require_list (some l) = return l

-- `existing is not None and existing.id != recipient_list_id`.
abbrev pub is_other_list : Option RecipientList → ℕ → Bool
is_other_list none recipient_list_id = false
is_other_list (some l) recipient_list_id = not (l.id == recipient_list_id)

-- `kind.value`.
abbrev pub kind_value : RecipientListKind → String
kind_value RecipientListKind.group = "group"
kind_value RecipientListKind.channel = "channel"

abbrev pub list_details : String → RecipientListKind → List ℕ → Option Details
list_details name kind ids = some (
    ("name", Detail.text name)
    ∷ ("kind", Detail.text (kind_value kind))
    ∷ ("member_count", Detail.number (length ids))
    ∷ [])

module _ (env : Env) where
  unfoldable pub create_recipient_list :
      String → RecipientListKind → List ℕ → ℕ → Session (Option RecipientList)
  unfolding strip RecipientLists.get_by_name ensure_members_valid RecipientLists.add
      RecipientLists.replace_members RecipientLists.get_by_id audit_now
  create_recipient_list name kind member_user_ids actor_user_id = do
    let name' = strip name
    existing ← RecipientLists.get_by_name name'
    raise_if (is_some existing) Exc.recipient_list_name_taken
    let ids = dedupe member_user_ids
    ensure_members_valid ids
    recipient_list_id ← external env.uuid4
    RecipientLists.add recipient_list_id name' kind
    RecipientLists.replace_members recipient_list_id ids
    audit_now env (some actor_user_id) "recipient_list.created" (some "RecipientList")
        (some recipient_list_id) (list_details name' kind ids)
    RecipientLists.get_by_id recipient_list_id

  unfoldable pub update_recipient_list :
      ℕ → String → RecipientListKind → List ℕ → ℕ → ℕ → Session (Option RecipientList)
  unfolding strip RecipientLists.get_by_id RecipientLists.get_by_name ensure_members_valid
      RecipientLists.update_details RecipientLists.replace_members audit_now
  update_recipient_list recipient_list_id name kind member_user_ids expected_version actor_user_id =
      do
        found ← RecipientLists.get_by_id recipient_list_id
        target ← require_list found
        raise_if (not (target.version == expected_version)) Exc.version_conflict
        let name' = strip name
        existing ← RecipientLists.get_by_name name'
        raise_if (is_other_list existing recipient_list_id) Exc.recipient_list_name_taken
        let ids = dedupe member_user_ids
        ensure_members_valid ids
        updated ← RecipientLists.update_details recipient_list_id name' kind expected_version
        raise_if (not updated) Exc.version_conflict
        RecipientLists.replace_members recipient_list_id ids
        audit_now env (some actor_user_id) "recipient_list.updated" (some "RecipientList")
            (some recipient_list_id) (list_details name' kind ids)
        RecipientLists.get_by_id recipient_list_id

  unfoldable pub remove_recipient_list : ℕ → ℕ → Session (Unit {0})
  unfolding RecipientLists.get_by_id RecipientLists.deactivate audit_now
  remove_recipient_list recipient_list_id actor_user_id = do
    found ← RecipientLists.get_by_id recipient_list_id
    target ← require_list found
    RecipientLists.deactivate recipient_list_id
    audit_now env (some actor_user_id) "recipient_list.deactivated" (some "RecipientList")
        (some recipient_list_id) none
