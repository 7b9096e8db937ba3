-- ===== src/Notifications/Webhook/Laws.antt =====
-- What a delivery callback does to the table (apply_status_update in domain/notifications.py).
use growth_track.RowLaws.{All, rows_where-set_where}
use growth_track.Prelude.{
  ℕ, suc, ◌≤◌, ◌<◌, String, subst, ◌≡◌, refl, sym, ap, ◌∙◌, ◌⊎◌, inl, inr, true, Option, none, some,
  List, map, arith, eq_iff, leb, Bool-cases, Option-cases, rows_where, set_where, Distinct,
}
use growth_track.Models.{DeliveryStatus, WebhookOutcome, NotificationDelivery}
use growth_track.Session.{World, Env, ok}
use growth_track.Persistence.Users.{text_is}
use growth_track.Persistence.Deliveries.{reported_at, only_row}
use growth_track.Notifications.Delivery.{IsConsistent, reported-IsConsistent}
use growth_track.Notifications.Dispatch.Laws.{has_row_id, with_deliveries}
use growth_track.Notifications.Dispatch.Budget.{row_id, KeepsBudget}
use growth_track.Notifications.Webhook.{
  WebhookApplyResult, status_rank, candidate_status, move_to, apply_to, apply_status_update,
}
use growth_track.Notifications.Webhook.OnlyRow.{
  only_row-set_where, only_row-Agrees, only_row-passes, only_row-All, set_where-All,
}

module _ (env : Env) (budget : ℕ) (sid : String) (outcome : WebhookOutcome) (reason : Option String)
    (w : World) where
  abbrev pub matching : List NotificationDelivery
  matching = rows_where (λ r. text_is r.provider_message_sid sid) w.db.notification_deliveries

  abbrev pub candidate : NotificationDelivery → DeliveryStatus
  candidate r = candidate_status outcome r.attempt_count budget

  apply_status_update-eq :
      apply_status_update env budget sid outcome reason w
      ≡ apply_to env budget (only_row matching) outcome reason w
  unfolding apply_status_update
  apply_status_update-eq = refl

  -- A callback whose SID matches no row, or more than one, is superseded and changes nothing.
  pub apply_status_update_superseded :
      only_row matching ≡ none
      → apply_status_update env budget sid outcome reason w ≡ (ok WebhookApplyResult.superseded, w)
  unfolding apply_status_update apply_to
  apply_status_update_superseded h = rw h

  pub apply_status_update_rejected :
      (r : NotificationDelivery)
      → only_row matching ≡ some r
      → status_rank (candidate r) ≤ status_rank r.status
      → apply_status_update env budget sid outcome reason w
        ≡ (ok WebhookApplyResult.rejected_non_monotonic, w)
  unfolding apply_status_update apply_to move_to
  apply_status_update_rejected r h l = ground arith

  pub apply_status_update_applied :
      (r : NotificationDelivery)
      → only_row matching ≡ some r
      → status_rank r.status < status_rank (candidate r)
      → apply_status_update env budget sid outcome reason w ≡ (
        ok WebhookApplyResult.applied,
        record w {
          db = with_deliveries w.db (
              set_where
                (has_row_id r.id)
                (reported_at (candidate r) reason (env.now w.calls))
                w.db.notification_deliveries);
          calls = suc w.calls;
        },
      )
  unfolding apply_status_update apply_to move_to
  apply_status_update_applied r h l = ground arith

  -- A callback that is superseded or rejected changes nothing. It is applied exactly if the SID
  -- belongs to one row and the new status ranks strictly above the status of that row; then that
  -- row alone takes the new status and the reason, and the answer says so.
  pub apply_status_update_cases :
      ((only_row matching ≡ none)
        × (apply_status_update env budget sid outcome reason w
            ≡ (ok WebhookApplyResult.superseded, w)))
      ⊎ ((r : NotificationDelivery) × (only_row matching ≡ some r)
          × (((status_rank (candidate r) ≤ status_rank r.status)
                × (apply_status_update env budget sid outcome reason w
                    ≡ (ok WebhookApplyResult.rejected_non_monotonic, w)))
              ⊎ ((status_rank r.status < status_rank (candidate r))
                  × (apply_status_update env budget sid outcome reason w ≡ (
                    ok WebhookApplyResult.applied,
                    record w {
                      db = with_deliveries w.db (
                          set_where
                            (has_row_id r.id)
                            (reported_at (candidate r) reason (env.now w.calls))
                            w.db.notification_deliveries);
                      calls = suc w.calls;
                    },
                  )))))
  apply_status_update_cases = elim (Option-cases (only_row matching)) [
    | inl h ↦ inl (h, apply_status_update_superseded h)
    | inr (r, h) ↦ inr (
      r,
      h,
      elim (Bool-cases (leb (status_rank (candidate r)) (status_rank r.status))) [
        | inl l ↦ inl (ground arith, apply_status_update_rejected r h (ground arith))
        | inr l ↦ inr (ground arith, apply_status_update_applied r h (ground arith))
      ],
    )
  ]

text_is-eq : (o : Option String) (s : String) → text_is o s ≡ true → o ≡ some s
text_is-eq none s h = cc
text_is-eq (some t) s h = ap some ((eq_iff t s).0 h)

pub reported-matching :
    (env : Env) (budget : ℕ) (sid : String) (outcome : WebhookOutcome) (reason : Option String)
    (w : World) (r : NotificationDelivery)
    → only_row (rows_where (λ x. text_is x.provider_message_sid sid) w.db.notification_deliveries)
      ≡ some r
    → only_row (
        rows_where
          (λ x. text_is x.provider_message_sid sid)
          (set_where
            (has_row_id r.id)
            (reported_at (candidate_status outcome r.attempt_count budget) reason (env.now w.calls))
            w.db.notification_deliveries))
      ≡ some
          (reported_at (candidate_status outcome r.attempt_count budget) reason (env.now w.calls) r)
reported-matching env budget sid outcome reason w r h =
    ap only_row (
      rows_where-set_where (λ x. text_is x.provider_message_sid sid) (has_row_id r.id)
        (reported_at (candidate_status outcome r.attempt_count budget) reason (env.now w.calls))
        (λ x. refl) w.db.notification_deliveries)
    ∙ only_row-set_where _ _ r h

-- Every status that a callback reports has the top rank.
pub candidate-top :
    (outcome later : WebhookOutcome) (n m budget : ℕ)
    → status_rank (candidate_status later m budget)
      ≤ status_rank (candidate_status outcome n budget)
unfolding status_rank candidate_status
candidate-top outcome later n m budget = ground arith

-- If every delivery keeps the retry budget and the ids are pairwise different, then every delivery
-- keeps the retry budget after a callback, whatever it reports.
pub apply_status_update-IsConsistent :
    (env : Env) (budget : ℕ) (sid : String) (outcome : WebhookOutcome) (reason : Option String)
    (w : World)
    → All (IsConsistent budget) w.db.notification_deliveries
    → Distinct (map row_id w.db.notification_deliveries)
    → All
        (IsConsistent budget)
        (apply_status_update env budget sid outcome reason w).1.db.notification_deliveries
apply_status_update-IsConsistent env budget sid outcome reason w h d =
    elim (apply_status_update_cases env budget sid outcome reason w) [
      | inl (n, s) ↦ subst (KeepsBudget budget) (sym (ap (λ x. x.1) s)) h
      | inr (r, n, inl (l, s)) ↦ subst (KeepsBudget budget) (sym (ap (λ x. x.1) s)) h
      | inr (r, n, inr (l, s)) ↦
          let k =
            reported-IsConsistent budget r outcome sid reason (env.now w.calls)
              (only_row-All (IsConsistent budget) _ w.db.notification_deliveries r h n)
              (text_is-eq r.provider_message_sid sid
                (only_row-passes _ w.db.notification_deliveries r n))
              l in
          subst (KeepsBudget budget) (sym (ap (λ x. x.1) s)) (
            set_where-All (IsConsistent budget) _ r w.db.notification_deliveries h
              (only_row-Agrees _ w.db.notification_deliveries r d n) k)
    ]
