-- ===== src/Notifications/Dispatch/Identity.antt =====
-- Which deliveries the dispatch loop leaves in the table (dispatch_deliveries in
-- domain/notifications.py).
use growth_track.Models.{User, NotificationType, NotificationDelivery}
use growth_track.Session.{World, Env, SendReply, accepted, rejected, ok}
use growth_track.Persistence.Deliveries.{claimed_at, may_claim}
use growth_track.Notifications.Dispatch.{
  DeliveryOutcome, VariablesByRecipient, cons_some, dispatch_row, dispatch_deliveries,
}
use growth_track.Notifications.Dispatch.Laws.{
  attempted, has_row_id, claim, dispatch_row_claimed, dispatch_row_unclaimed,
}
use growth_track.Prelude.{
  ℕ, String, ◌≡◌, refl, ◌∙◌, inl, inr, Bool, Option, none, List, [], ◌∷◌, map, Bool-cases, any,
  set_where,
}

-- What stays of a delivery.
abbrev pub Identity : Type 0
Identity = ℕ × ℕ × NotificationType × ℕ × Option ℕ

abbrev pub identity : NotificationDelivery → Identity
identity r = (r.id, r.notification_id, r.notification_type, r.recipient_user_id, r.operational_day)

identity-set_where :
    (p : NotificationDelivery → Bool) (f : NotificationDelivery → NotificationDelivery)
    → ((r : NotificationDelivery) → identity (f r) ≡ identity r)
    → (rows : List NotificationDelivery) → map identity (set_where p f rows) ≡ map identity rows
identity-set_where p f h [] = refl
identity-set_where p f h (r ∷ rows) = elim (Bool-cases (p r)) [
  | inl e ↦ rw e (rw (h r, identity-set_where p f h rows))
  | inr e ↦ rw e (rw (identity-set_where p f h rows))
]

attempted-identity :
    (budget : ℕ) (row : NotificationDelivery) (reply : SendReply) (t : ℕ) (r : NotificationDelivery)
    → identity (attempted budget row reply t r) ≡ identity r
unfolding attempted
attempted-identity budget row (accepted sid) t r = refl
attempted-identity budget row (rejected reason) t r = refl

module _ (env : Env) (vars : VariablesByRecipient) (sid : String) (recipients : List User)
    (budget : ℕ) where
  dispatch_row-identity :
      (row : NotificationDelivery) (w : World)
      → (o : Option DeliveryOutcome) × (v : World) × (dispatch_row env vars sid recipients budget
            row w
          ≡ (ok o, v))
        × (map identity v.db.notification_deliveries ≡ map identity w.db.notification_deliveries)
  dispatch_row-identity row w =
      elim (Bool-cases (any (may_claim row.id) w.db.notification_deliveries)) [
        | inl h ↦
            let (reply, t, u, n, box, e, b) =
              dispatch_row_claimed env vars sid recipients budget row w h in
            (
              _,
              _,
              e,
              identity-set_where (has_row_id row.id) (attempted budget row reply u)
                    (attempted-identity budget row reply u)
                    (claim row t w.db.notification_deliveries)
                  ∙ identity-set_where (may_claim row.id) (claimed_at t) (λ r. refl)
                      w.db.notification_deliveries,
            )
        | inr h ↦ (none, _, dispatch_row_unclaimed env vars sid recipients budget row w h, refl)
      ]

  -- The loop adds and removes no delivery, and each keeps its keys.
  pub dispatch_deliveries-identity :
      (rows : List NotificationDelivery) (w : World)
      → (os : List DeliveryOutcome) × (v : World) × (dispatch_deliveries env vars sid recipients
            budget rows w
          ≡ (ok os, v))
        × (map identity v.db.notification_deliveries ≡ map identity w.db.notification_deliveries)
  unfolding dispatch_deliveries
  dispatch_deliveries-identity [] w = ([], w, refl, refl)
  dispatch_deliveries-identity (row ∷ rows) w =
      let (o, v, e, h) = dispatch_row-identity row w in
      let (os, u, e', h') = dispatch_deliveries-identity rows v in
      (cons_some o os, u, rw (e, e'), h' ∙ h)
