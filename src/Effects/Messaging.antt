-- ===== src/Effects/Messaging.antt =====
-- What the services of domain/notifications.py write.
use growth_track.Effects.{
  Relation, Allows, KeepsKey, Obeys, return-Obeys, raise-Obeys, query-Obeys, effects,
}
use growth_track.Effects.Directory.{get_list-Obeys, get_many_by_ids-Obeys}
use growth_track.Session.{Env}
use growth_track.Models.{
  Team, DeliveryStatus, MessageTemplate, NotificationDelivery, WebhookOutcome,
}
use growth_track.Persistence.Consents
use growth_track.Persistence.Deliveries.{
  claimed_at, sent_at, reported_at, claim_for_dispatch, update_after_send,
  update_status_from_webhook,
}
use growth_track.Notifications.Resolution.{resolve, expand_teams, expand_lists, team_expansion}
use growth_track.Notifications.TemplateDirectory as TemplateDirectory
use growth_track.Notifications.Compose as Compose
use growth_track.Notifications.Compose.{VariableValues}
use growth_track.Notifications.Webhook as Webhook
use growth_track.Prelude.{ℕ, String, refl, Option, none, some, List, [], ◌∷◌}

claimed_at-KeepsKey : (now : ℕ) → KeepsKey (claimed_at now)
claimed_at-KeepsKey now = record {
  keeps_id = λ r. refl;
  keeps_notification = λ r. refl;
  keeps_type = λ r. refl;
  keeps_recipient = λ r. refl;
  keeps_day = λ r. refl;
}

sent_at-KeepsKey :
    (status : DeliveryStatus) (sid reason : Option String) (now : ℕ)
    → KeepsKey (sent_at status sid reason now)
sent_at-KeepsKey status sid reason now = record {
  keeps_id = λ r. refl;
  keeps_notification = λ r. refl;
  keeps_type = λ r. refl;
  keeps_recipient = λ r. refl;
  keeps_day = λ r. refl;
}

reported_at-KeepsKey :
    (status : DeliveryStatus) (reason : Option String) (now : ℕ)
    → KeepsKey (reported_at status reason now)
reported_at-KeepsKey status reason now = record {
  keeps_id = λ r. refl;
  keeps_notification = λ r. refl;
  keeps_type = λ r. refl;
  keeps_recipient = λ r. refl;
  keeps_day = λ r. refl;
}

module _ (R : Relation) (allowed : Allows R) where
  team_expansion-Obeys : (id : ℕ) (o : Option Team) → Obeys R (team_expansion id o)
  unfolding team_expansion
  team_expansion-Obeys id none = return-Obeys R allowed []
  team_expansion-Obeys id (some t) = search (effects) depth 12

  expand_teams-Obeys : (ids : List ℕ) → Obeys R (expand_teams ids)
  unfolding expand_teams
  expand_teams-Obeys [] = return-Obeys R allowed []
  expand_teams-Obeys (id ∷ ids) =
      let ih : (u : Unit {0}) → Obeys R (expand_teams ids) = λ u. expand_teams-Obeys ids in
      search (effects, team_expansion-Obeys, ih) depth 12

  expand_lists-Obeys : (ids : List ℕ) → Obeys R (expand_lists ids)
  unfolding expand_lists
  expand_lists-Obeys [] = return-Obeys R allowed []
  expand_lists-Obeys (id ∷ ids) =
      let ih : (u : Unit {0}) → Obeys R (expand_lists ids) = λ u. expand_lists-Obeys ids in
      search (effects, get_list-Obeys, ih) depth 12

  pub active_consents-Obeys : (ids : List ℕ) → Obeys R (Consents.get_active_by_user_ids ids)
  unfolding Consents.get_active_by_user_ids
  active_consents-Obeys [] = return-Obeys R allowed []
  active_consents-Obeys (i ∷ ids) = query-Obeys R allowed _

  pub resolve-Obeys :
      (user_ids team_ids list_ids : List ℕ) → Obeys R (resolve user_ids team_ids list_ids)
  unfolding resolve
  resolve-Obeys user_ids team_ids list_ids =
      search
        (
          effects, expand_teams-Obeys, expand_lists-Obeys, get_many_by_ids-Obeys,
          active_consents-Obeys,
        )
        depth 30

  found-Obeys : (o : Option MessageTemplate) → Obeys R (TemplateDirectory.found o)
  found-Obeys none = raise-Obeys R allowed _
  found-Obeys (some t) = return-Obeys R allowed t

  pub require_template-Obeys : (o : Option MessageTemplate) → Obeys R (Compose.require_template o)
  require_template-Obeys none = raise-Obeys R allowed _
  require_template-Obeys (some t) = return-Obeys R allowed t

  module _ (env : Env) where
    pub create_template-Obeys :
        (name sid : String) (slots : List String) (body : String) (actor : ℕ)
        → Obeys R (TemplateDirectory.create_template env name sid slots body actor)
    unfolding TemplateDirectory.create_template
    create_template-Obeys name sid slots body actor =
        search (effects, allowed.message_templates, allowed.audit) depth 60

    pub update_template-Obeys :
        (id : ℕ) (name sid : String) (slots : List String) (body : String) (actor : ℕ)
        → Obeys R (TemplateDirectory.update_template env id name sid slots body actor)
    unfolding TemplateDirectory.update_template
    update_template-Obeys id name sid slots body actor =
        search (effects, found-Obeys, allowed.message_templates, allowed.audit) depth 60

    pub claim-Obeys : (id : ℕ) → Obeys R (claim_for_dispatch env id)
    unfolding claim_for_dispatch
    claim-Obeys id = search (effects, allowed.touch, claimed_at-KeepsKey) depth 20

    pub update_after_send-Obeys :
        (id : ℕ) (status : DeliveryStatus) (sid reason : Option String)
        → Obeys R (update_after_send env id status sid reason)
    unfolding update_after_send
    update_after_send-Obeys id status sid reason =
        search (effects, allowed.touch, sent_at-KeepsKey) depth 20

    update_status-Obeys :
        (id : ℕ) (status : DeliveryStatus) (reason : Option String)
        → Obeys R (update_status_from_webhook env id status reason)
    unfolding update_status_from_webhook
    update_status-Obeys id status reason =
        search (effects, allowed.touch, reported_at-KeepsKey) depth 20

    module _ (budget : ℕ) where
      move_to-Obeys :
          (row : NotificationDelivery) (candidate : DeliveryStatus) (reason : Option String)
          → Obeys R (Webhook.move_to env budget row candidate reason)
      unfolding Webhook.move_to
      move_to-Obeys row candidate reason = search (effects, update_status-Obeys) depth 20

      apply_to-Obeys :
          (o : Option NotificationDelivery) (outcome : WebhookOutcome) (reason : Option String)
          → Obeys R (Webhook.apply_to env budget o outcome reason)
      unfolding Webhook.apply_to
      apply_to-Obeys none outcome reason = return-Obeys R allowed _
      apply_to-Obeys (some row) outcome reason = move_to-Obeys row _ reason

      pub apply_status_update-Obeys :
          (sid : String) (outcome : WebhookOutcome) (reason : Option String)
          → Obeys R (Webhook.apply_status_update env budget sid outcome reason)
      unfolding Webhook.apply_status_update
      apply_status_update-Obeys sid outcome reason = search (effects, apply_to-Obeys) depth 20
