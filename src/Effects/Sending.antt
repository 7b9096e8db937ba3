-- ===== src/Effects/Sending.antt =====
-- What the dispatch and the manual notifications of domain/notifications.py write.
use growth_track.Effects.Messaging.{
  claim-Obeys, update_after_send-Obeys, require_template-Obeys, resolve-Obeys,
}
use growth_track.Effects.{Relation, Allows, AllowsEnds, Obeys, return-Obeys, reading-Obeys, effects}
use growth_track.Effects.Directory.{get_many_by_ids-Obeys}
use growth_track.Reports.Scheduled.Reading.{require_variables-IsReading}
use growth_track.Session.{Env, World, Message, SendReply, accepted, rejected, send_template_message}
use growth_track.Models.{User, ContentVariables, MessageTemplate, NotificationDelivery, TargetType}
use growth_track.Persistence.Deliveries.{insert_rows, flush_rows, bulk_create}
use growth_track.Notifications.Resolution.{ResolvedRecipients}
use growth_track.Notifications.Compose as Compose
use growth_track.Notifications.Compose.{VariableValues}
use growth_track.Notifications.Dispatch as Dispatch
use growth_track.Notifications.Dispatch.{VariablesByRecipient}
use growth_track.Prelude.{
  ℕ, String, ◌≡◌, refl, Bool, true, false, Option, none, some, List, [], ◌∷◌,
}

module _ (R : Relation) (allowed : Allows R) (ends : AllowsEnds R) (env : Env) where
  send_template_message-Obeys : (m : Message) → Obeys R (send_template_message env m)
  unfolding send_template_message
  send_template_message-Obeys m = record { obeys = λ w. ends.sends w _ refl refl }

  module _ (vars : VariablesByRecipient) (sid : String) (recipients : List User) (budget : ℕ) where
    fail-Obeys :
        (row : NotificationDelivery) (reason : String)
        → Obeys R (Dispatch.fail env vars sid recipients budget row reason)
    unfolding Dispatch.fail
    fail-Obeys row reason = search (effects, update_after_send-Obeys) depth 12

    record_reply-Obeys :
        (row : NotificationDelivery) (reply : SendReply)
        → Obeys R (Dispatch.record_reply env vars sid recipients budget row reply)
    unfolding Dispatch.record_reply
    record_reply-Obeys row (rejected message) = fail-Obeys row message
    record_reply-Obeys row (accepted s) = search (effects, update_after_send-Obeys) depth 12

    send-Obeys :
        (row : NotificationDelivery) (recipient : User) (o : Option ContentVariables)
        → Obeys R (Dispatch.send env vars sid recipients budget row recipient o)
    unfolding Dispatch.send
    send-Obeys row recipient none = search (effects, fail-Obeys) depth 12
    send-Obeys row recipient (some v) =
        search (effects, send_template_message-Obeys, record_reply-Obeys) depth 12

    deliver-Obeys :
        (row : NotificationDelivery) (o : Option User)
        → Obeys R (Dispatch.deliver env vars sid recipients budget row o)
    unfolding Dispatch.deliver
    deliver-Obeys row none = fail-Obeys row _
    deliver-Obeys row (some u) = send-Obeys row u _

    after_claim-Obeys :
        (row : NotificationDelivery) (claimed : Bool)
        → Obeys R (Dispatch.after_claim env vars sid recipients budget row claimed)
    unfolding Dispatch.after_claim
    after_claim-Obeys row false = return-Obeys R allowed none
    after_claim-Obeys row true = search (effects, deliver-Obeys) depth 12

    pub dispatch_deliveries-Obeys :
        (rows : List NotificationDelivery)
        → Obeys R (Dispatch.dispatch_deliveries env vars sid recipients budget rows)
    unfolding Dispatch.dispatch_deliveries Dispatch.dispatch_row
    dispatch_deliveries-Obeys [] = return-Obeys R allowed []
    dispatch_deliveries-Obeys (row ∷ rows) =
        let ih : (u : Unit {0})
            → Obeys R (Dispatch.dispatch_deliveries env vars sid recipients budget rows) =
          λ u. dispatch_deliveries-Obeys rows in
        search (effects, claim-Obeys, after_claim-Obeys, ih) depth 20

  flushed :
      (w : World) (o : Option (List NotificationDelivery))
      → ((table : List NotificationDelivery)
          → o ≡ some table
          → R w (record w { db = record w.db { notification_deliveries = table } }))
      → R w (flush_rows o w).1
  unfolding flush_rows
  flushed w none h = ends.rolls_back w
  flushed w (some table) h = h table refl

  pub bulk_create-Obeys : (rows : List NotificationDelivery) → Obeys R (bulk_create rows)
  unfolding bulk_create
  bulk_create-Obeys rows = record {
    obeys = λ w.
        flushed w (insert_rows rows w.db.notification_deliveries)
          (λ table e. allowed.insert rows table w e);
  }

  make_targets-Obeys :
      (id : ℕ) (t : TargetType) (ids : List ℕ) → Obeys R (Compose.make_targets env id t ids)
  unfolding Compose.make_targets
  make_targets-Obeys id t [] = return-Obeys R allowed []
  make_targets-Obeys id t (i ∷ ids) =
      let ih : (k : ℕ) → Obeys R (Compose.make_targets env k t ids) =
        λ k. make_targets-Obeys k t ids in
      search (effects, ih) depth 12

  make_rows-Obeys :
      (id now : ℕ) (v : ContentVariables) (ids : List ℕ)
      → Obeys R (Compose.make_rows env id now v ids)
  unfolding Compose.make_rows
  make_rows-Obeys id now v [] = return-Obeys R allowed []
  make_rows-Obeys id now v (i ∷ ids) =
      let ih : (k : ℕ) → Obeys R (Compose.make_rows env k now v ids) =
        λ k. make_rows-Obeys k now v ids in
      search (effects, ih) depth 12

  record_notification-Obeys :
      (template_id : ℕ) (user_ids team_ids list_ids : List ℕ) (actor now : ℕ)
      (resolved : ResolvedRecipients)
      → Obeys R (
          Compose.record_notification env template_id user_ids team_ids list_ids actor now resolved)
  unfolding Compose.record_notification
  record_notification-Obeys template_id user_ids team_ids list_ids actor now resolved =
      search (effects, make_targets-Obeys, allowed.notifications, allowed.audit) depth 60

  require_variables-Obeys : (o : Option ContentVariables) → Obeys R (Compose.require_variables o)
  require_variables-Obeys o = reading-Obeys R allowed _ (require_variables-IsReading o)

  send_rows-Obeys :
      (id now : ℕ) (template : MessageTemplate) (values : VariableValues) (ids : List ℕ)
      (budget : ℕ)
      → Obeys R (Compose.send_rows env id now template values ids budget)
  unfolding Compose.send_rows
  send_rows-Obeys id now template values ids budget =
      search
        (
          effects, require_variables-Obeys, make_rows-Obeys, bulk_create-Obeys,
          get_many_by_ids-Obeys, dispatch_deliveries-Obeys,
        )
        depth 40

  pub compose_and_send-Obeys :
      (budget template_id : ℕ) (values : VariableValues) (user_ids team_ids list_ids : List ℕ)
      (actor : ℕ)
      → Obeys R
          (Compose.compose_and_send env budget template_id values user_ids team_ids list_ids actor)
  unfolding Compose.compose_and_send
  compose_and_send-Obeys budget template_id values user_ids team_ids list_ids actor =
      search
        (effects, require_template-Obeys, resolve-Obeys, record_notification-Obeys, send_rows-Obeys)
        depth 60
