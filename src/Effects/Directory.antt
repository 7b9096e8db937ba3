-- ===== src/Effects/Directory.antt =====
-- What the services of domain/recipients.py write.
use growth_track.Effects.{
  Relation, Allows, Obeys, return-Obeys, raise-Obeys, bind-Obeys, effects, then-Obeys, query-Obeys,
}
use growth_track.Session.{Exc, Env, RecipientListRow}
use growth_track.Models.{User, Team, Role, Details, RecipientList, RecipientListKind}
use growth_track.Persistence.Users
use growth_track.Persistence.RecipientLists
use growth_track.Directory.Audit.{audit_at, audit_now}
use growth_track.Directory.Users as UserDirectory
use growth_track.Directory.Teams as TeamDirectory
use growth_track.Directory.RecipientLists as ListDirectory
use growth_track.Directory.Consents as ConsentDirectory
use growth_track.Prelude.{ℕ, String, Option, none, some, List, [], ◌∷◌}

module _ (R : Relation) (allowed : Allows R) where
  require_user-Obeys : (o : Option User) (e : Exc) → Obeys R (UserDirectory.require_user o e)
  require_user-Obeys none e = raise-Obeys R allowed e
  require_user-Obeys (some u) e = return-Obeys R allowed u

  require_team-Obeys : (o : Option Team) → Obeys R (UserDirectory.require_team o)
  require_team-Obeys none = raise-Obeys R allowed _
  require_team-Obeys (some t) = return-Obeys R allowed t

  require_list-Obeys : (o : Option RecipientList) → Obeys R (ListDirectory.require_list o)
  require_list-Obeys none = raise-Obeys R allowed _
  require_list-Obeys (some l) = return-Obeys R allowed l

  require_mobile-Obeys : (o : Option String) → Obeys R (ConsentDirectory.require_mobile o)
  require_mobile-Obeys none = raise-Obeys R allowed _
  require_mobile-Obeys (some s) = return-Obeys R allowed s

  with_members-Obeys : (o : Option RecipientListRow) → Obeys R (RecipientLists.with_members o)
  unfolding RecipientLists.with_members
  with_members-Obeys none = return-Obeys R allowed none
  with_members-Obeys (some l) = search (effects)

  pub get_list-Obeys : (id : ℕ) → Obeys R (RecipientLists.get_by_id id)
  unfolding RecipientLists.get_by_id
  get_list-Obeys id = bind-Obeys R allowed _ _ (query-Obeys R allowed _) with_members-Obeys

  get_list_by_name-Obeys : (name : String) → Obeys R (RecipientLists.get_by_name name)
  unfolding RecipientLists.get_by_name
  get_list_by_name-Obeys name = search (effects, with_members-Obeys) depth 12

  pub get_many_by_ids-Obeys : (ids : List ℕ) → Obeys R (Users.get_many_by_ids ids)
  unfolding Users.get_many_by_ids
  get_many_by_ids-Obeys [] = return-Obeys R allowed []
  get_many_by_ids-Obeys (i ∷ ids) = query-Obeys R allowed _

  check_member-Obeys : (o : Option User) → Obeys R (ListDirectory.check_member o)
  check_member-Obeys none = raise-Obeys R allowed _
  check_member-Obeys (some u) = search (effects)

  check_members-Obeys :
      (users : List User) (ids : List ℕ) → Obeys R (ListDirectory.check_members users ids)
  unfolding ListDirectory.check_members
  check_members-Obeys users [] = return-Obeys R allowed tt
  check_members-Obeys users (i ∷ ids) =
      then-Obeys R allowed _ _ (check_member-Obeys _) (check_members-Obeys users ids)

  ensure_members_valid-Obeys : (ids : List ℕ) → Obeys R (ListDirectory.ensure_members_valid ids)
  unfolding ListDirectory.ensure_members_valid
  ensure_members_valid-Obeys [] = return-Obeys R allowed tt
  ensure_members_valid-Obeys (i ∷ ids) =
      bind-Obeys R allowed _ _ (get_many_by_ids-Obeys (i ∷ ids))
        (λ users. check_members-Obeys users (i ∷ ids))

  ruleset directory = (
    effects, require_user-Obeys, require_team-Obeys, require_list-Obeys, require_mobile-Obeys,
    get_list-Obeys, get_list_by_name-Obeys, ensure_members_valid-Obeys,
  )

  module _ (env : Env) where
    pub audit_now-Obeys :
        (actor : Option ℕ) (action : String) (entity : Option String) (id : Option ℕ)
        (details : Option Details)
        → Obeys R (audit_now env actor action entity id details)
    unfolding audit_now
    audit_now-Obeys actor action entity id details = search (effects, allowed.audit) depth 12

    pub audit_at-Obeys :
        (at : ℕ) (actor : Option ℕ) (action : String) (entity : Option String) (id : Option ℕ)
        (details : Option Details)
        → Obeys R (audit_at env at actor action entity id details)
    unfolding audit_at
    audit_at-Obeys at actor action entity id details = search (effects, allowed.audit) depth 12

    pub create_user-Obeys :
        (name mobile : String) (role : Role) (team_id actor : ℕ)
        → Obeys R (UserDirectory.create_user env name mobile role team_id actor)
    unfolding UserDirectory.create_user
    create_user-Obeys name mobile role team_id actor =
        search (directory, audit_at-Obeys, allowed.users) depth 60

    pub auto_revoke-Obeys :
        (user_id actor : ℕ) → Obeys R (UserDirectory.auto_revoke env user_id actor)
    unfolding UserDirectory.auto_revoke
    auto_revoke-Obeys user_id actor =
        search (directory, audit_now-Obeys, allowed.opt_in_consents) depth 60

    pub update_user-Obeys :
        (user_id : ℕ) (name mobile : String) (team_id version actor : ℕ)
        → Obeys R (UserDirectory.update_user env user_id name mobile team_id version actor)
    unfolding UserDirectory.update_user
    update_user-Obeys user_id name mobile team_id version actor =
        search (directory, audit_now-Obeys, auto_revoke-Obeys, allowed.users) depth 60

    pub remove_user-Obeys :
        (user_id actor : ℕ) → Obeys R (UserDirectory.remove_user env user_id actor)
    unfolding UserDirectory.remove_user
    remove_user-Obeys user_id actor = search (directory, audit_now-Obeys, allowed.users) depth 60

    pub create_team-Obeys :
        (name : String) (actor : ℕ) → Obeys R (TeamDirectory.create_team env name actor)
    unfolding TeamDirectory.create_team
    create_team-Obeys name actor = search (directory, audit_now-Obeys, allowed.teams) depth 60

    pub update_team-Obeys :
        (team_id : ℕ) (name : String) (version actor : ℕ)
        → Obeys R (TeamDirectory.update_team env team_id name version actor)
    unfolding TeamDirectory.update_team
    update_team-Obeys team_id name version actor =
        search (directory, audit_now-Obeys, allowed.teams) depth 60

    pub remove_team-Obeys :
        (team_id actor : ℕ) → Obeys R (TeamDirectory.remove_team env team_id actor)
    unfolding TeamDirectory.remove_team
    remove_team-Obeys team_id actor = search (directory, audit_now-Obeys, allowed.teams) depth 60

    pub create_recipient_list-Obeys :
        (name : String) (kind : RecipientListKind) (members : List ℕ) (actor : ℕ)
        → Obeys R (ListDirectory.create_recipient_list env name kind members actor)
    unfolding ListDirectory.create_recipient_list
    create_recipient_list-Obeys name kind members actor =
        search (directory, audit_now-Obeys, allowed.recipient_lists, allowed.recipient_list_members)
          depth 60

    pub update_recipient_list-Obeys :
        (list_id : ℕ) (name : String) (kind : RecipientListKind) (members : List ℕ)
        (version actor : ℕ)
        → Obeys R (ListDirectory.update_recipient_list env list_id name kind members version actor)
    unfolding ListDirectory.update_recipient_list
    update_recipient_list-Obeys list_id name kind members version actor =
        search (directory, audit_now-Obeys, allowed.recipient_lists, allowed.recipient_list_members)
          depth 60

    pub remove_recipient_list-Obeys :
        (list_id actor : ℕ) → Obeys R (ListDirectory.remove_recipient_list env list_id actor)
    unfolding ListDirectory.remove_recipient_list
    remove_recipient_list-Obeys list_id actor =
        search (directory, audit_now-Obeys, allowed.recipient_lists) depth 60

    pub grant_consent-Obeys :
        (user_id actor : ℕ) → Obeys R (ConsentDirectory.grant_consent env user_id actor)
    unfolding ConsentDirectory.grant_consent
    grant_consent-Obeys user_id actor =
        search (directory, audit_now-Obeys, allowed.opt_in_consents) depth 60

    pub revoke_consent-Obeys :
        (user_id actor : ℕ) → Obeys R (ConsentDirectory.revoke_consent env user_id actor)
    unfolding ConsentDirectory.revoke_consent
    revoke_consent-Obeys user_id actor =
        search (directory, audit_now-Obeys, allowed.opt_in_consents) depth 60
