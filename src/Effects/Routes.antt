-- ===== src/Effects/Routes.antt =====
-- What the routes of the directory and of messages write (api/recipients/, api/notifications/).
use growth_track.Effects.Replies.{refuse_listed-Obeys, rollback_and_refuse-Obeys, routes}
use growth_track.Effects.{
  Relation, Allows, AllowsEnds, Obeys, return-Obeys, raise-Obeys, effects, ending,
}
use growth_track.Effects.Directory.{
  create_user-Obeys, update_user-Obeys, remove_user-Obeys, create_team-Obeys, update_team-Obeys,
  remove_team-Obeys, create_recipient_list-Obeys, update_recipient_list-Obeys,
  remove_recipient_list-Obeys, grant_consent-Obeys, revoke_consent-Obeys, get_list-Obeys,
}
use growth_track.Effects.Messaging.{create_template-Obeys, update_template-Obeys}
use growth_track.Effects.Sending.{compose_and_send-Obeys}
use growth_track.Session.{Exc, Env}
use growth_track.Models.{User, Team, Role, RecipientList, RecipientListKind}
use growth_track.Notifications.Compose.{VariableValues}
use growth_track.Api.Users as Users
use growth_track.Api.Teams as Teams
use growth_track.Api.RecipientLists as Lists
use growth_track.Api.Notifications as Messages
use growth_track.Prelude.{ℕ, String, Bool, Option, none, some, List}

module _ (R : Relation) (allowed : Allows R) (ends : AllowsEnds R) where
  respond_user-Obeys : (o : Option User) → Obeys R (Users.respond o)
  unfolding Users.respond
  respond_user-Obeys none = search (effects)
  respond_user-Obeys (some x) = search (effects) depth 20

  respond_current_user-Obeys : (o : Option User) → Obeys R (Users.respond_current o)
  unfolding Users.respond_current
  respond_current_user-Obeys none = search (effects)
  respond_current_user-Obeys (some x) = search (effects) depth 20

  respond_team-Obeys : (o : Option Team) → Obeys R (Teams.respond o)
  respond_team-Obeys none = raise-Obeys R allowed _
  respond_team-Obeys (some t) = return-Obeys R allowed _

  respond_current_team-Obeys : (o : Option Team) → Obeys R (Teams.respond_current o)
  respond_current_team-Obeys none = return-Obeys R allowed _
  respond_current_team-Obeys (some t) = return-Obeys R allowed _

  respond_list-Obeys : (o : Option RecipientList) → Obeys R (Lists.respond o)
  respond_list-Obeys none = raise-Obeys R allowed _
  respond_list-Obeys (some l) = return-Obeys R allowed _

  respond_current_list-Obeys : (o : Option RecipientList) → Obeys R (Lists.respond_current o)
  respond_current_list-Obeys none = return-Obeys R allowed _
  respond_current_list-Obeys (some l) = return-Obeys R allowed _

  module _ (env : Env) (races : ℕ → Bool) where
    pub route_create_user-Obeys :
        (name mobile : String) (role : Role) (team_id actor : ℕ)
        → Obeys R (Users.create_user env races name mobile role team_id actor)
    unfolding Users.create_user
    route_create_user-Obeys name mobile role team_id actor =
        search (routes, create_user-Obeys) depth 40

    user_failed-Obeys : (id : ℕ) (e : Exc) → Obeys R (Users.update_failed env races id e)
    unfolding Users.update_failed
    user_failed-Obeys id Exc.version_conflict = search (ending, respond_current_user-Obeys) depth 20
    user_failed-Obeys id e = refuse_listed-Obeys R allowed ends (Users.update_errors e)

    pub route_update_user-Obeys :
        (id : ℕ) (name mobile : String) (team_id version actor : ℕ)
        → Obeys R (Users.update_user env races id name mobile team_id version actor)
    unfolding Users.update_user
    route_update_user-Obeys id name mobile team_id version actor =
        search (routes, user_failed-Obeys, respond_user-Obeys, update_user-Obeys) depth 40

    pub route_remove_user-Obeys : (id actor : ℕ) → Obeys R (Users.remove_user env races id actor)
    unfolding Users.remove_user
    route_remove_user-Obeys id actor = search (routes, remove_user-Obeys) depth 40

    grant_failed-Obeys : (e : Exc) → Obeys R (Users.grant_failed env races e)
    grant_failed-Obeys Exc.integrity_error =
        rollback_and_refuse-Obeys R allowed ends (409, "consent_already_active")
    grant_failed-Obeys e = refuse_listed-Obeys R allowed ends (Users.grant_errors e)

    pub route_grant-Obeys : (id actor : ℕ) → Obeys R (Users.grant_opt_in_consent env races id actor)
    unfolding Users.grant_opt_in_consent
    route_grant-Obeys id actor = search (routes, grant_failed-Obeys, grant_consent-Obeys) depth 40

    pub route_revoke-Obeys :
        (id actor : ℕ) → Obeys R (Users.revoke_opt_in_consent env races id actor)
    unfolding Users.revoke_opt_in_consent
    route_revoke-Obeys id actor = search (routes, revoke_consent-Obeys) depth 40

    pub route_create_team-Obeys :
        (name : String) (actor : ℕ) → Obeys R (Teams.create_team env races name actor)
    unfolding Teams.create_team
    route_create_team-Obeys name actor =
        search (routes, respond_team-Obeys, create_team-Obeys) depth 40

    team_failed-Obeys : (id : ℕ) (e : Exc) → Obeys R (Teams.update_failed env races id e)
    unfolding Teams.update_failed
    team_failed-Obeys id Exc.version_conflict = search (ending, respond_current_team-Obeys) depth 20
    team_failed-Obeys id e = refuse_listed-Obeys R allowed ends (Teams.update_errors e)

    pub route_update_team-Obeys :
        (id : ℕ) (name : String) (version actor : ℕ)
        → Obeys R (Teams.update_team env races id name version actor)
    unfolding Teams.update_team
    route_update_team-Obeys id name version actor =
        search (routes, team_failed-Obeys, respond_team-Obeys, update_team-Obeys) depth 40

    pub route_remove_team-Obeys : (id actor : ℕ) → Obeys R (Teams.remove_team env races id actor)
    unfolding Teams.remove_team
    route_remove_team-Obeys id actor = search (routes, remove_team-Obeys) depth 40

    list_created-Obeys : (e : Exc) → Obeys R (Lists.create_failed env races e)
    list_created-Obeys Exc.integrity_error =
        rollback_and_refuse-Obeys R allowed ends Lists.recipient_list_name_taken
    list_created-Obeys e = refuse_listed-Obeys R allowed ends (Lists.create_errors e)

    pub route_create_list-Obeys :
        (name : String) (kind : RecipientListKind) (members : List ℕ) (actor : ℕ)
        → Obeys R (Lists.create_recipient_list env races name kind members actor)
    unfolding Lists.create_recipient_list
    route_create_list-Obeys name kind members actor =
        search (routes, list_created-Obeys, respond_list-Obeys, create_recipient_list-Obeys) depth
          40

    list_failed-Obeys : (id : ℕ) (e : Exc) → Obeys R (Lists.update_failed env races id e)
    unfolding Lists.update_failed
    list_failed-Obeys id Exc.version_conflict =
        search (ending, get_list-Obeys, respond_current_list-Obeys) depth 20
    list_failed-Obeys id Exc.integrity_error =
        rollback_and_refuse-Obeys R allowed ends Lists.recipient_list_name_taken
    list_failed-Obeys id e = refuse_listed-Obeys R allowed ends (Lists.update_errors e)

    pub route_update_list-Obeys :
        (id : ℕ) (name : String) (kind : RecipientListKind) (members : List ℕ) (version actor : ℕ)
        → Obeys R (Lists.update_recipient_list env races id name kind members version actor)
    unfolding Lists.update_recipient_list
    route_update_list-Obeys id name kind members version actor =
        search (routes, list_failed-Obeys, respond_list-Obeys, update_recipient_list-Obeys) depth 40

    pub route_remove_list-Obeys :
        (id actor : ℕ) → Obeys R (Lists.remove_recipient_list env races id actor)
    unfolding Lists.remove_recipient_list
    route_remove_list-Obeys id actor = search (routes, remove_recipient_list-Obeys) depth 40

    pub route_create_template-Obeys :
        (name sid : String) (slots : List String) (body : String) (actor : ℕ)
        → Obeys R (Messages.create_message_template env races name sid slots body actor)
    unfolding Messages.create_message_template
    route_create_template-Obeys name sid slots body actor =
        search (routes, create_template-Obeys) depth 40

    template_failed-Obeys : (e : Exc) → Obeys R (Messages.update_failed env races e)
    template_failed-Obeys Exc.integrity_error =
        rollback_and_refuse-Obeys R allowed ends Messages.template_name_taken
    template_failed-Obeys e = refuse_listed-Obeys R allowed ends (Messages.update_errors e)

    pub route_update_template-Obeys :
        (id : ℕ) (name sid : String) (slots : List String) (body : String) (actor : ℕ)
        → Obeys R (Messages.update_message_template env races id name sid slots body actor)
    unfolding Messages.update_message_template
    route_update_template-Obeys id name sid slots body actor =
        search (routes, template_failed-Obeys, update_template-Obeys) depth 40

    pub route_compose-Obeys :
        (budget template_id : ℕ) (values : VariableValues) (user_ids team_ids list_ids : List ℕ)
        (actor : ℕ)
        → Obeys R (
            Messages.compose_and_send_notification env races budget template_id values user_ids
              team_ids list_ids actor)
    unfolding Messages.compose_and_send_notification
    route_compose-Obeys budget template_id values user_ids team_ids list_ids actor =
        search (routes, compose_and_send-Obeys) depth 40
