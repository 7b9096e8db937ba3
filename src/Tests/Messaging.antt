-- ===== src/Tests/Messaging.antt =====
-- The messaging theorems on the sample.
use growth_track.Models.{WebhookOutcome, MessageTemplate, NotificationDelivery}
use growth_track.Prelude.{
  ◌+◌, ◌≤◌, ◌<◌, String, ◌≡◌, refl, ◌⊎◌, true, false, ◌&&◌, none, some, List, [], ◌∷◌, arith,
  length, set_where, contains, Distinct,
}
use growth_track.RowLaws.{All}
use growth_track.Session.{Exc, World, Outcome, ok, raised}
use growth_track.Tests.Samples.{sample_env, sample_world, alice, queued_row, failed_row}
use growth_track.Persistence.Deliveries.{Backoff, reported_at, only_row}
use growth_track.Notifications.Resolution.{ResolvedRecipients, resolve}
use growth_track.Notifications.Resolution.Laws.{
  is_selected, resolve_accounts, resolve_recipient_iff,
}
use growth_track.Notifications.Resolution.Expansion.{is_eligible_recipient}
use growth_track.Notifications.Dispatch.{DeliveryOutcome, dispatch_deliveries}
use growth_track.Notifications.Dispatch.Laws.{
  dispatch_deliveries_total, has_row_id, with_deliveries,
}
use growth_track.Notifications.Dispatch.Budget.{dispatch_deliveries-IsConsistent}
use growth_track.Notifications.Delivery.{IsConsistent}
use growth_track.Notifications.Webhook.{
  WebhookApplyResult, status_rank, candidate_status, apply_status_update,
}
use growth_track.Notifications.Webhook.Laws.{
  matching, apply_status_update_cases, apply_status_update-IsConsistent,
}
use growth_track.Notifications.Webhook.Sequence.{
  Callback, after_callbacks, apply_status_update_once,
}
use growth_track.Notifications.Compose.{valid_values}
use growth_track.Notifications.Compose.Laws.{template, composed, compose_and_send_guards}

abbrev waits : Backoff
waits = record { minutes_1 = 1; minutes_2 = 5; minutes_3 = 15 }

resolve_accounts_example :
    (r : ResolvedRecipients) × (resolve (3 ∷ []) (10 ∷ []) [] sample_world ≡ (ok r, sample_world))
    × (r.selected_count ≡ r.overlap_count + r.ineligible_count + r.unique_count)
    × (r.unique_count ≡ length r.recipient_user_ids)
    × Distinct r.recipient_user_ids
resolve_accounts_example = resolve_accounts (3 ∷ []) (10 ∷ []) [] sample_world

-- The selection reaches Alice twice and Bob once, and Bob has no opt-in.
abbrev alice_only : ResolvedRecipients
alice_only = record {
  recipient_user_ids = 3 ∷ [];
  selected_count = 3;
  overlap_count = 1;
  ineligible_count = 1;
  unique_count = 1;
}

resolve_recipient_iff_example : contains 4 alice_only.recipient_user_ids ≡ (
    is_selected sample_world.db (3 ∷ []) (10 ∷ []) [] 4 && is_eligible_recipient sample_world.db 4)
unfolding resolve
resolve_recipient_iff_example =
    resolve_recipient_iff (3 ∷ []) (10 ∷ []) [] sample_world alice_only sample_world refl 4

abbrev dispatched : World
dispatched =
    (dispatch_deliveries sample_env [] "HX1" (alice ∷ []) 3 (queued_row ∷ failed_row ∷ [])
      sample_world).1

sample-IsConsistent : All (IsConsistent 3) sample_world.db.notification_deliveries
sample-IsConsistent =
    ((omega arith, tt), ((omega arith, omega arith), (((omega arith, omega arith), tt), tt)))

dispatch_deliveries-IsConsistent_example :
    All (IsConsistent 3) dispatched.db.notification_deliveries
dispatch_deliveries-IsConsistent_example =
    dispatch_deliveries-IsConsistent sample_env [] "HX1" (alice ∷ []) 3
      (queued_row ∷ failed_row ∷ []) sample_world sample-IsConsistent (refl, (refl, tt))
      ((λ e. refl, (λ e. cc, (λ e. cc, tt))), ((λ e. cc, (λ e. cc, (λ e. refl, tt))), tt))

dispatch_deliveries_total_example :
    (outcomes : List DeliveryOutcome) × (w' : World) × (dispatch_deliveries sample_env [] "HX1"
        (alice ∷ [])
        3
        (queued_row ∷ [])
        sample_world
      ≡ (ok outcomes, w'))
    × (w'.db ≡ with_deliveries sample_world.db w'.db.notification_deliveries)
    × (w'.committed ≡ sample_world.committed)
    × (length outcomes ≤ 1)
    × (length w'.outbox ≤ 0 + length outcomes)
dispatch_deliveries_total_example =
    dispatch_deliveries_total sample_env [] "HX1" (alice ∷ []) 3 (queued_row ∷ []) sample_world

abbrev reported : Outcome WebhookApplyResult × World
reported = apply_status_update sample_env 3 "SM1" WebhookOutcome.delivered none sample_world

apply_status_update_cases_example :
    ((only_row (matching sample_env 3 "SM1" WebhookOutcome.delivered none sample_world) ≡ none)
      × (reported ≡ (ok WebhookApplyResult.superseded, sample_world)))
    ⊎ ((r : NotificationDelivery) × (only_row
            (matching sample_env 3 "SM1" WebhookOutcome.delivered none sample_world)
          ≡ some r)
        × (((status_rank (candidate_status WebhookOutcome.delivered r.attempt_count 3)
                ≤ status_rank r.status)
              × (reported ≡ (ok WebhookApplyResult.rejected_non_monotonic, sample_world)))
            ⊎ ((status_rank r.status
                  < status_rank (candidate_status WebhookOutcome.delivered r.attempt_count 3))
                × (reported ≡ (
                  ok WebhookApplyResult.applied,
                  record sample_world {
                    db = with_deliveries sample_world.db (
                        set_where
                          (has_row_id r.id)
                          (reported_at
                            (candidate_status WebhookOutcome.delivered r.attempt_count 3)
                            none
                            1000)
                          sample_world.db.notification_deliveries);
                    calls = 1;
                  },
                )))))
apply_status_update_cases_example =
    apply_status_update_cases sample_env 3 "SM1" WebhookOutcome.delivered none sample_world

abbrev later_callbacks : List Callback
later_callbacks =
    ("SM1", WebhookOutcome.delivered, none) ∷ ("SM2", WebhookOutcome.failure, none) ∷ []

apply_status_update_once_example :
    apply_status_update sample_env 3 "SM1" WebhookOutcome.failure
      (some "30008")
      (after_callbacks sample_env 3 later_callbacks reported.1)
    ≡ (
      ok WebhookApplyResult.rejected_non_monotonic,
      after_callbacks sample_env 3 later_callbacks reported.1,
    )
unfolding apply_status_update
apply_status_update_once_example =
    apply_status_update_once sample_env 3 "SM1" WebhookOutcome.delivered WebhookOutcome.failure none
      (some "30008") later_callbacks sample_world reported.1 refl

apply_status_update-IsConsistent_example :
    All (IsConsistent 3) reported.1.db.notification_deliveries
apply_status_update-IsConsistent_example =
    apply_status_update-IsConsistent sample_env 3 "SM1" WebhookOutcome.delivered none sample_world
      sample-IsConsistent (refl, (refl, (refl, tt)))

abbrev june : List (String × String)
june = ("month", "June") ∷ []

compose_and_send_guards_example :
    ((template sample_env 3 30 june (3 ∷ []) [] [] 1 sample_world ≡ none)
      × (composed sample_env 3 30 june (3 ∷ []) [] [] 1 sample_world
          ≡ (raised Exc.template_not_found, sample_world)))
    ⊎ ((t : MessageTemplate) × (template sample_env 3 30 june (3 ∷ []) [] [] 1 sample_world
          ≡ some t)
        × (((valid_values june t.variable_slots ≡ false)
              × (composed sample_env 3 30 june (3 ∷ []) [] [] 1 sample_world
                  ≡ (raised Exc.invalid_variable_values, sample_world)))
            ⊎ ((valid_values june t.variable_slots ≡ true)
                × (r : ResolvedRecipients) × (resolve (3 ∷ []) [] [] sample_world
                    ≡ (ok r, sample_world))
                × (((r.unique_count ≡ 0)
                      × (composed sample_env 3 30 june (3 ∷ []) [] [] 1 sample_world
                          ≡ (raised Exc.no_recipients_selected, sample_world)))
                    ⊎ (1 ≤ r.unique_count)))))
compose_and_send_guards_example =
    compose_and_send_guards sample_env 3 30 june (3 ∷ []) [] [] 1 sample_world
