-- ===== src/Notifications/Lifecycle/Refinement.antt =====
-- The operations take steps of the abstract machine only.
use growth_track.RowLaws.{All}
use growth_track.Models.{User, DeliveryStatus, WebhookOutcome, NotificationDelivery}
use growth_track.Session.{SendReply, World, Env, accepted, rejected}
use growth_track.Persistence.Deliveries.{is_claimable, claimed_at, reported_at, may_claim}
use growth_track.Notifications.Dispatch.{
  VariablesByRecipient, dispatch_deliveries, status_after_failed_attempt,
}
use growth_track.Notifications.Dispatch.Laws.{
  dispatch_row_claimed, dispatch_row_unclaimed, has_row_id, attempted, with_deliveries,
}
use growth_track.Notifications.Dispatch.Budget.{
  Agrees, row_id, touched_row, touched, touched_row_self, touched_row_other, claimable_of,
  Agrees-All, after_row,
}
use growth_track.Notifications.Webhook.{status_rank, candidate_status, apply_status_update}
use growth_track.Notifications.Webhook.Laws.{apply_status_update_cases}
use growth_track.Notifications.Webhook.OnlyRow.{only_row-Agrees}
use growth_track.Notifications.Lifecycle.{
  is_waiting, is_open, Step, taken, refused, given_up, arrived, lost, lost_for_good, Steps, here,
  then, Lives, AllLive, is_final,
}
use growth_track.Prelude.{
  ℕ, suc, ◌+◌, ◌<◌, String, subst, ◌≡◌, refl, sym, ap, ◌∙◌, inl, inr, true, false, Option, List, [],
  ◌∷◌, map, arith, ltb, ◌==◌, ==_iff, Bool-cases, set_where, any, Distinct,
}

Steps-trans :
    {budget : ℕ} {s t u : DeliveryStatus} {n m k : ℕ}
    → Steps budget s n t m
    → Steps budget t m u k
    → Steps budget s n u k
Steps-trans here q = q
Steps-trans (then p ps) q = then p (Steps-trans ps q)

final-not_waiting : (s : DeliveryStatus) → is_final s ≡ true → is_waiting s ≡ false
final-not_waiting s h = ground arith

final-not_open : (s : DeliveryStatus) → is_final s ≡ true → is_open s ≡ false
final-not_open s h = ground arith

Step-final :
    {budget : ℕ} {s t : DeliveryStatus} {n m : ℕ} → is_final s ≡ true → Step budget s n t m → ⊥
Step-final {s = s} h (taken c) = let d = final-not_waiting s h in cc
Step-final {s = s} h (refused c l) = let d = final-not_waiting s h in cc
Step-final {s = s} h (given_up c l) = let d = final-not_waiting s h in cc
Step-final {s = s} h (arrived c) = let d = final-not_open s h in cc
Step-final {s = s} h (lost c l) = let d = final-not_open s h in cc
Step-final {s = s} h (lost_for_good c l) = let d = final-not_open s h in cc

-- A row that is delivered, or that failed for good, stays as it is.
pub Steps-final :
    {budget : ℕ} {s t : DeliveryStatus} {n m : ℕ}
    → is_final s ≡ true
    → Steps budget s n t m
    → (t ≡ s) × (m ≡ n)
Steps-final h here = (refl, refl)
Steps-final h (then p ps) = elim (Step-final h p) [ ]

AllLive-refl : (budget : ℕ) (rows : List NotificationDelivery) → AllLive budget rows rows
AllLive-refl budget [] = tt
AllLive-refl budget (r ∷ rows) = ((refl, refl, here), AllLive-refl budget rows)

AllLive-trans :
    (budget : ℕ) (xs ys zs : List NotificationDelivery)
    → AllLive budget xs ys
    → AllLive budget ys zs
    → AllLive budget xs zs
AllLive-trans budget [] [] zs p q = q
AllLive-trans budget [] (y ∷ ys) zs p q = elim p [ ]
AllLive-trans budget (x ∷ xs) [] zs p q = elim p [ ]
AllLive-trans budget (x ∷ xs) (y ∷ ys) [] p q = elim q [ ]
AllLive-trans budget (x ∷ xs) (y ∷ ys) (z ∷ zs) ((a, b, p), ps) ((c, d, q), qs) =
    ((c ∙ a, d ∙ b, Steps-trans p q), AllLive-trans budget xs ys zs ps qs)

claimable-waiting : (s : DeliveryStatus) → is_claimable s ≡ true → is_waiting s ≡ true
claimable-waiting s c = ground arith

attempted-Lives :
    (budget : ℕ) (row : NotificationDelivery) (reply : SendReply) (t u : ℕ)
    → is_claimable row.status ≡ true
    → Lives budget row (attempted budget row reply u (claimed_at t row))
unfolding attempted status_after_failed_attempt
attempted-Lives budget row (accepted sid) t u c =
    (refl, refl, then (taken (claimable-waiting row.status c)) here)
attempted-Lives budget row (rejected reason) t u c =
    elim (Bool-cases (ltb (row.attempt_count + 1) (1 + budget))) [
      | inl e ↦
          rw e
            (refl, refl, then (refused (claimable-waiting row.status c) (ground (arith, e))) here)
      | inr e ↦
          rw e
            (refl, refl, then (given_up (claimable-waiting row.status c) (ground (arith, e))) here)
    ]

touched_row-Lives :
    (budget : ℕ) (row : NotificationDelivery) (reply : SendReply) (t u : ℕ)
    (r : NotificationDelivery)
    → is_claimable row.status ≡ true
    → (r.id ≡ row.id → r ≡ row)
    → Lives budget r (touched_row budget row reply t u r)
touched_row-Lives budget row reply t u r c g = elim (Bool-cases (r.id == row.id)) [
  | inl e ↦
      let same : r ≡ row = g ((==_iff r.id row.id).0 e) in
      subst (λ x. Lives budget x (touched_row budget row reply t u x)) (sym same)
        (subst (λ x. Lives budget row x) (sym (touched_row_self budget row reply t u c))
          (attempted-Lives budget row reply t u c))
  | inr e ↦
      subst (λ x. Lives budget r x) (sym (touched_row_other budget row reply t u r e))
        (refl, refl, here)
]

touched-AllLive :
    (budget : ℕ) (row : NotificationDelivery) (reply : SendReply) (t u : ℕ)
    (table : List NotificationDelivery)
    → is_claimable row.status ≡ true
    → Agrees table row
    → AllLive budget table (touched budget row reply t u table)
touched-AllLive budget row reply t u [] c g = tt
touched-AllLive budget row reply t u (r ∷ table) c g = (
  touched_row-Lives budget row reply t u r c g.0,
  touched-AllLive budget row reply t u table c g.1,
)

module _ (env : Env) (vars : VariablesByRecipient) (sid : String) (recipients : List User)
    (budget : ℕ) where
  -- If the rows to send have pairwise different ids and the table holds each of them as it was read,
  -- the dispatch loop refines the abstract machine: every row of the table is afterwards the row of
  -- the same delivery and recipient, after some steps of the machine.
  pub dispatch_deliveries-AllLive :
      (rows : List NotificationDelivery) (w : World)
      → Distinct (map row_id rows)
      → All (Agrees w.db.notification_deliveries) rows
      → AllLive budget w.db.notification_deliveries
          (dispatch_deliveries env vars sid recipients budget rows w).1.db.notification_deliveries
  unfolding dispatch_deliveries
  dispatch_deliveries-AllLive [] w d g = AllLive-refl budget w.db.notification_deliveries
  dispatch_deliveries-AllLive (row ∷ rows) w d g =
      let table = w.db.notification_deliveries in
      elim (Bool-cases (any (may_claim row.id) w.db.notification_deliveries)) [
        | inl c ↦
            let (reply, t, u, n, box, e, b) =
              dispatch_row_claimed env vars sid recipients budget row w c in
            let w' : World = record w {
              db = with_deliveries w.db (touched budget row reply t u w.db.notification_deliveries);
              calls = n;
              outbox = box;
            } in
            let claimable = claimable_of row w.db.notification_deliveries g.0 c in
            subst (λ v. AllLive budget table v.db.notification_deliveries)
              (sym (after_row env vars sid recipients budget row rows w w' e))
              (AllLive-trans budget table (touched budget row reply t u table) _
                (touched-AllLive budget row reply t u table claimable g.0)
                (dispatch_deliveries-AllLive rows w' d.1
                  (Agrees-All budget row reply t u table rows d.0 g.1)))
        | inr c ↦
            subst (λ v. AllLive budget table v.db.notification_deliveries)
              (sym (
                after_row env vars sid recipients budget row rows w _
                  (dispatch_row_unclaimed env vars sid recipients budget row w c)))
              (dispatch_deliveries-AllLive rows (record w { calls = suc w.calls }) d.1 g.1)
      ]

rank-open : (s c : DeliveryStatus) → status_rank s < status_rank c → is_open s ≡ true
unfolding status_rank
rank-open s c h = ground arith

reported-Lives :
    (budget : ℕ) (r : NotificationDelivery) (outcome : WebhookOutcome) (reason : Option String)
    (t : ℕ)
    → is_open r.status ≡ true
    → Lives budget r (reported_at (candidate_status outcome r.attempt_count budget) reason t r)
unfolding candidate_status status_after_failed_attempt
reported-Lives budget r WebhookOutcome.delivered reason t h = (refl, refl, then (arrived h) here)
reported-Lives budget r WebhookOutcome.failure reason t h =
    elim (Bool-cases (ltb r.attempt_count (1 + budget))) [
      | inl e ↦ rw e (refl, refl, then (lost h (ground (arith, e))) here)
      | inr e ↦ rw e (refl, refl, then (lost_for_good h (ground (arith, e))) here)
    ]

set_where-AllLive :
    (budget : ℕ) (f : NotificationDelivery → NotificationDelivery) (r : NotificationDelivery)
    (table : List NotificationDelivery)
    → Agrees table r
    → Lives budget r (f r)
    → AllLive budget table (set_where (has_row_id r.id) f table)
set_where-AllLive budget f r [] g h = tt
set_where-AllLive budget f r (x ∷ table) g h = elim (Bool-cases (has_row_id r.id x)) [
  | inl e ↦
      let same : x ≡ r = g.0 ((==_iff x.id r.id).0 e) in
      rw e
        (subst (λ y. Lives budget y (f y)) (sym same) h, set_where-AllLive budget f r table g.1 h)
  | inr e ↦ rw e ((refl, refl, here), set_where-AllLive budget f r table g.1 h)
]

-- With pairwise different ids a callback refines the abstract machine too.
pub apply_status_update-AllLive :
    (env : Env) (budget : ℕ) (sid : String) (outcome : WebhookOutcome) (reason : Option String)
    (w : World)
    → Distinct (map row_id w.db.notification_deliveries)
    → AllLive budget w.db.notification_deliveries
        (apply_status_update env budget sid outcome reason w).1.db.notification_deliveries
apply_status_update-AllLive env budget sid outcome reason w d =
    let table = w.db.notification_deliveries in
    let unchanged = AllLive-refl budget table in
    elim (apply_status_update_cases env budget sid outcome reason w) [
      | inl (n, s) ↦
          subst (λ v. AllLive budget table v.db.notification_deliveries) (sym (ap (λ x. x.1) s))
            unchanged
      | inr (r, n, inl (l, s)) ↦
          subst (λ v. AllLive budget table v.db.notification_deliveries) (sym (ap (λ x. x.1) s))
            unchanged
      | inr (r, n, inr (l, s)) ↦
          subst (λ v. AllLive budget table v.db.notification_deliveries) (sym (ap (λ x. x.1) s))
            (set_where-AllLive budget _ r table (only_row-Agrees _ table r d n)
              (reported-Lives budget r outcome reason (env.now w.calls) (rank-open r.status _ l)))
    ]
