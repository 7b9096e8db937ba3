-- ===== src/Api/RecipientLists.antt =====
-- /recipient-lists (api/recipients/routes.py).
use growth_track.Models.{RecipientListKind, RecipientListStatus, RecipientList}
use growth_track.Session.{Exc, Session, return, raise, ◌>>=◌, ◌>>◌, commit, Env}
use growth_track.Api.Replies.{
  Reply, done, refused, conflict, HttpError, rollback_and_refuse, refuse_listed, commit_or,
  answering, not_found,
}
use growth_track.Persistence.RecipientLists
use growth_track.Directory.RecipientLists as RecipientListDirectory
use growth_track.Prelude.{ℕ, String, Bool, Option, none, some, List, map}

pub record RecipientListResponse : Type 0 where
  pub id : ℕ
  pub name : String
  pub kind : RecipientListKind
  pub status : RecipientListStatus
  pub version : ℕ
  pub member_user_ids : List ℕ

abbrev pub to_recipient_list_response : RecipientList → RecipientListResponse
to_recipient_list_response l = record {
  id = l.id;
  name = l.name;
  kind = l.kind;
  status = l.status;
  version = l.version;
  member_user_ids = l.member_user_ids;
}

abbrev pub recipient_list_name_taken : HttpError
recipient_list_name_taken = (409, "recipient_list_name_taken")

abbrev pub create_errors : Exc → Option HttpError
create_errors Exc.recipient_list_name_taken = some recipient_list_name_taken
create_errors Exc.member_not_found = some not_found
create_errors Exc.member_inactive = some (422, "member_inactive")
create_errors Exc.member_not_addressable = some (422, "member_not_addressable")
create_errors e = none

abbrev pub update_errors : Exc → Option HttpError
update_errors Exc.recipient_list_not_found = some not_found
update_errors e = create_errors e

abbrev pub remove_errors : Exc → Option HttpError
remove_errors Exc.recipient_list_not_found = some not_found
remove_errors e = none

-- `_to_recipient_list_response(recipient_list)` of what the service has read back.
abbrev pub respond : Option RecipientList → Session (Reply RecipientListResponse)
respond none = raise Exc.attribute_error
respond (some l) = return (done (to_recipient_list_response l))

-- The list as it is now, or the answer for one that is gone.
abbrev pub respond_current : Option RecipientList → Session (Reply RecipientListResponse)
respond_current none = return (refused 404 "not_found")
respond_current (some l) = return (conflict (to_recipient_list_response l))

unfoldable pub list_recipient_lists : Session (Reply (List RecipientListResponse))
unfolding RecipientLists.list_all_full
list_recipient_lists = do
  all_lists ← RecipientLists.list_all_full
  return (done (map to_recipient_list_response all_lists))

module _ (env : Env) (races : ℕ → Bool) where
  -- An IntegrityError may come from the flush or from the commit.
  abbrev pub create_failed : Exc → Session (Reply RecipientListResponse)
  create_failed Exc.integrity_error = rollback_and_refuse recipient_list_name_taken
  create_failed e = refuse_listed (create_errors e)

  unfoldable pub create_recipient_list :
      String → RecipientListKind → List ℕ → ℕ → Session (Reply RecipientListResponse)
  create_recipient_list name kind member_user_ids current_user_id =
      answering create_failed (λ l. commit_or races recipient_list_name_taken (respond l))
        (RecipientListDirectory.create_recipient_list env name kind member_user_ids current_user_id)

  unfoldable pub update_failed : ℕ → Exc → Session (Reply RecipientListResponse)
  unfolding RecipientLists.get_by_id
  update_failed recipient_list_id Exc.version_conflict = do
    commit
    current ← RecipientLists.get_by_id recipient_list_id
    respond_current current
  update_failed recipient_list_id Exc.integrity_error =
      rollback_and_refuse recipient_list_name_taken
  update_failed recipient_list_id e = refuse_listed (update_errors e)

  unfoldable pub update_recipient_list :
      ℕ → String → RecipientListKind → List ℕ → ℕ → ℕ → Session (Reply RecipientListResponse)
  unfolding update_failed
  update_recipient_list recipient_list_id name kind member_user_ids version current_user_id =
      answering (update_failed recipient_list_id)
        (λ l. commit_or races recipient_list_name_taken (respond l))
        (RecipientListDirectory.update_recipient_list env recipient_list_id name kind
          member_user_ids version current_user_id)

  unfoldable pub remove_recipient_list : ℕ → ℕ → Session (Reply (Unit {0}))
  remove_recipient_list recipient_list_id current_user_id =
      answering (λ e. refuse_listed (remove_errors e)) (λ u. commit >> return (done tt))
        (RecipientListDirectory.remove_recipient_list env recipient_list_id current_user_id)
