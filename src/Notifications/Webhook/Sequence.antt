-- ===== src/Notifications/Webhook/Sequence.antt =====
-- Callbacks one after the other (apply_status_update in domain/notifications.py).
use growth_track.RowLaws.{rows_where-set_where}
use growth_track.Prelude.{
  ℕ, suc, ◌≤◌, String, subst, ◌≡◌, refl, sym, ap, ◌∙◌, inl, inr, Option, some, List, [], ◌∷◌,
  Bool-cases, rows_where, set_where, ◌==◌,
}
use growth_track.Models.{WebhookOutcome, NotificationDelivery}
use growth_track.Session.{World, Env, ok}
use growth_track.Persistence.Users.{text_is}
use growth_track.Persistence.Deliveries.{reported_at, only_row}
use growth_track.Notifications.Dispatch.Laws.{has_row_id, with_deliveries}
use growth_track.Notifications.Webhook.{
  WebhookApplyResult, status_rank, candidate_status, apply_status_update,
}
use growth_track.Notifications.Webhook.OnlyRow.{only_row-changed, only_row-kept}
use growth_track.Notifications.Webhook.Laws.{
  apply_status_update_cases, apply_status_update_rejected, reported-matching, candidate-top,
}

-- A callback: the SID, what it reports and why.
abbrev pub Callback : Type 0
Callback = String × WebhookOutcome × Option String

-- Callbacks one after the other.
abbrev pub after_callbacks : Env → ℕ → List Callback → World → World
after_callbacks env budget [] w = w
after_callbacks env budget ((sid, outcome, reason) ∷ callbacks) w =
    after_callbacks env budget callbacks (apply_status_update env budget sid outcome reason w).1

module _ (env : Env) (budget : ℕ) (sid : String) where
  -- The SID belongs to one row, whose status no callback outranks.
  abbrev IsSettled : World → Type 0
  IsSettled w =
      (r : NotificationDelivery) × (only_row
          (rows_where (λ x. text_is x.provider_message_sid sid) w.db.notification_deliveries)
        ≡ some r)
      × ((later : WebhookOutcome) (n : ℕ)
          → status_rank (candidate_status later n budget) ≤ status_rank r.status)

  apply_status_update-IsSettled :
      (outcome : WebhookOutcome) (reason : Option String) (w w' : World)
      → apply_status_update env budget sid outcome reason w ≡ (ok WebhookApplyResult.applied, w')
      → IsSettled w'
  apply_status_update-IsSettled outcome reason w w' e =
      elim (apply_status_update_cases env budget sid outcome reason w) [
        | inl (h, s) ↦ let clash = sym e ∙ s in cc
        | inr (r, h, inl (l, s)) ↦ let clash = sym e ∙ s in cc
        | inr (r, h, inr (l, s)) ↦ subst IsSettled (ap (λ x. x.1) (sym s ∙ e)) (
          reported_at (candidate_status outcome r.attempt_count budget) reason (env.now w.calls) r,
          reported-matching env budget sid outcome reason w r h,
          λ later n. candidate-top outcome later r.attempt_count n budget,
        )
      ]

  -- A callback for whatever SID moves the row at most to another top status.
  reported-IsSettled :
      (other : NotificationDelivery) (outcome : WebhookOutcome) (reason : Option String) (n t : ℕ)
      (w : World)
      → IsSettled w
      → IsSettled (record w {
        db = with_deliveries w.db (
            set_where
              (has_row_id other.id)
              (reported_at (candidate_status outcome n budget) reason t)
              w.db.notification_deliveries);
        calls = suc w.calls;
      })
  reported-IsSettled other outcome reason n t w (r, h, top) =
      let f = reported_at (candidate_status outcome n budget) reason t in
      let same =
        rows_where-set_where (λ x. text_is x.provider_message_sid sid) (has_row_id other.id) f
          (λ x. refl) w.db.notification_deliveries in
      elim (Bool-cases (r.id == other.id)) [
        | inl e ↦ (
          f r,
          ap only_row same ∙ only_row-changed (has_row_id other.id) f _ r h e,
          λ later m. candidate-top outcome later n m budget,
        )
        | inr e ↦ (r, ap only_row same ∙ only_row-kept (has_row_id other.id) f _ r h e, top)
      ]

  callback-IsSettled :
      (other : String) (outcome : WebhookOutcome) (reason : Option String) (w : World)
      → IsSettled w
      → IsSettled (apply_status_update env budget other outcome reason w).1
  callback-IsSettled other outcome reason w settled =
      elim (apply_status_update_cases env budget other outcome reason w) [
        | inl (h, s) ↦ subst IsSettled (sym (ap (λ x. x.1) s)) settled
        | inr (r, h, inl (l, s)) ↦ subst IsSettled (sym (ap (λ x. x.1) s)) settled
        | inr (r, h, inr (l, s)) ↦
            subst IsSettled (sym (ap (λ x. x.1) s))
              (reported-IsSettled r outcome reason r.attempt_count (env.now w.calls) w settled)
      ]

  callbacks-IsSettled :
      (callbacks : List Callback) (w : World)
      → IsSettled w
      → IsSettled (after_callbacks env budget callbacks w)
  callbacks-IsSettled [] w settled = settled
  callbacks-IsSettled ((other, outcome, reason) ∷ callbacks) w settled =
      callbacks-IsSettled callbacks (apply_status_update env budget other outcome reason w).1
        (callback-IsSettled other outcome reason w settled)

  -- Once a callback has been applied and any callbacks have followed, for this SID or others, the
  -- next callback for the same SID is rejected and changes nothing, whatever they report.
  pub apply_status_update_once :
      (outcome later : WebhookOutcome) (reason later_reason : Option String)
      (callbacks : List Callback) (w w' : World)
      → apply_status_update env budget sid outcome reason w ≡ (ok WebhookApplyResult.applied, w')
      → apply_status_update env budget sid later later_reason
          (after_callbacks env budget callbacks w')
        ≡ (ok WebhookApplyResult.rejected_non_monotonic, after_callbacks env budget callbacks w')
  apply_status_update_once outcome later reason later_reason callbacks w w' e =
      let (r, h, top) =
        callbacks-IsSettled callbacks w' (apply_status_update-IsSettled outcome reason w w' e) in
      apply_status_update_rejected env budget sid later later_reason
        (after_callbacks env budget callbacks w') r h (top later r.attempt_count)
