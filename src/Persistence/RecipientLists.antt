-- ===== src/Persistence/RecipientLists.antt =====
-- SqlAlchemyRecipientListRepository (adapters/persistence/recipient_lists.py).
use growth_track.Prelude.{
  ℕ, ◌+◌, String, Bool, ◌&&◌, not, Option, none, some, List, ◌∷◌, ◌++◌, map, str_eq, ◌==◌,
  rows_where, set_where, find?, any, sorted, compare_text,
}
use growth_track.Models.{is_active_list, RecipientListKind, RecipientListStatus, RecipientList}
use growth_track.Session.{
  Session, return, query, scalar_one_or_none, write, ◌>>=◌, ◌>>◌, RecipientListRow,
}

abbrev pub belongs_to : ℕ → ℕ × ℕ → Bool
belongs_to recipient_list_id (list_id, user_id) = list_id == recipient_list_id

abbrev pub member_of : ℕ × ℕ → ℕ
member_of (list_id, user_id) = user_id

unfoldable pub get_member_user_ids : ℕ → Session (List ℕ)
get_member_user_ids recipient_list_id =
    query (λ d. map member_of (rows_where (belongs_to recipient_list_id) d.recipient_list_members))

abbrev pub to_domain : RecipientListRow → List ℕ → RecipientList
to_domain row members = record {
  id = row.id;
  name = row.name;
  kind = row.kind;
  status = row.status;
  version = row.version;
  member_user_ids = members;
}

-- A row with its members, if there is a row.
unfoldable pub with_members : Option RecipientListRow → Session (Option RecipientList)
unfolding get_member_user_ids
with_members none = return none
with_members (some row) = do
  members ← get_member_user_ids row.id
  return (some (to_domain row members))

unfoldable pub get_by_id : ℕ → Session (Option RecipientList)
unfolding with_members
get_by_id recipient_list_id = do
  row ← query (λ d. find? (λ l. l.id == recipient_list_id) d.recipient_lists)
  with_members row

-- The active list with a name: ix_recipient_lists_name_active_uq.
abbrev pub holds_name : String → RecipientListRow → Bool
holds_name name l = str_eq l.name name && is_active_list l.status

unfoldable pub get_by_name : String → Session (Option RecipientList)
unfolding with_members
get_by_name name = do
  rows ← query (λ d. rows_where (holds_name name) d.recipient_lists)
  row ← scalar_one_or_none rows
  with_members row

unfoldable pub add : ℕ → String → RecipientListKind → Session (Unit {0})
add recipient_list_id name kind = write (λ d. record d {
  recipient_lists =
      record {
        id = recipient_list_id;
        name = name;
        kind = kind;
        status = RecipientListStatus.active;
        version = 1;
      }
      ∷ d.recipient_lists;
})

abbrev pub has_id_and_version : ℕ → ℕ → RecipientListRow → Bool
has_id_and_version recipient_list_id expected_version l =
    l.id == recipient_list_id && l.version == expected_version

unfoldable pub update_details : ℕ → String → RecipientListKind → ℕ → Session Bool
update_details recipient_list_id name kind expected_version = do
  matched ←
      query (λ d. any (has_id_and_version recipient_list_id expected_version) d.recipient_lists)
  write (λ d. record d {
    recipient_lists =
        set_where (has_id_and_version recipient_list_id expected_version)
          (λ l. record l { name = name; kind = kind; version = l.version + 1 }) d.recipient_lists;
  })
  return matched

unfoldable pub deactivate : ℕ → Session (Unit {0})
deactivate recipient_list_id = write (λ d. record d {
  recipient_lists =
      set_where (λ l. l.id == recipient_list_id)
        (λ l. record l { status = RecipientListStatus.inactive; version = l.version + 1 })
        d.recipient_lists;
})

unfoldable pub replace_members : ℕ → List ℕ → Session (Unit {0})
replace_members recipient_list_id user_ids = write (λ d. record d {
  recipient_list_members =
      map (λ user_id. (recipient_list_id, user_id)) user_ids
      ++ rows_where (λ m. not (belongs_to recipient_list_id m)) d.recipient_list_members;
})

-- Every list with its members, from one query on the lists and one on the memberships.
unfoldable pub list_all_full : Session (List RecipientList)
list_all_full = query (λ d.
    map (λ l. to_domain l (map member_of (rows_where (belongs_to l.id) d.recipient_list_members)))
      (sorted (λ l m. compare_text l.name m.name) d.recipient_lists))
