-- ===== src/Notifications/Dispatch/Laws.antt =====
-- The dispatch loop (dispatch_deliveries in domain/notifications.py) as an update of the table.
use growth_track.RowLaws.{set_where-none}
use growth_track.Prelude.{
  ℕ, suc, ◌+◌, ◌≤◌, String, ◌≡◌, refl, ap, ◌∙◌, inl, inr, Bool, true, false, Option, none, some,
  List, [], ◌∷◌, arith, ◌==◌, Bool-cases, length, set_where, any, dict_get,
}
use growth_track.Models.{User, ContentVariables, DeliveryStatus, NotificationDelivery}
use growth_track.Session.{Database, Message, SendReply, World, Env, Outcome, ok, accepted, rejected}
use growth_track.Persistence.Deliveries.{sent_at, claimed_at, may_claim}
use growth_track.Notifications.Resolution.{user_id_of}
use growth_track.Notifications.Dispatch.{
  DeliveryOutcome, VariablesByRecipient, variables_of, status_after_failed_attempt, cons_some,
  record_reply, send, deliver, after_claim, dispatch_row, dispatch_deliveries,
}

-- What the reply makes of a claimed row, and what is reported of it.
unfoldable pub attempted :
    ℕ → NotificationDelivery → SendReply → ℕ → NotificationDelivery → NotificationDelivery
attempted budget row (accepted sid) t = sent_at DeliveryStatus.sending (some sid) none t
attempted budget row (rejected reason) t =
    sent_at (status_after_failed_attempt (row.attempt_count + 1) budget) none (some reason) t

pub outcome_of : ℕ → NotificationDelivery → SendReply → DeliveryOutcome
outcome_of budget row (accepted sid) = record {
  recipient_user_id = row.recipient_user_id;
  status = DeliveryStatus.sending;
  failure_reason = none;
}
outcome_of budget row (rejected reason) = record {
  recipient_user_id = row.recipient_user_id;
  status = status_after_failed_attempt (row.attempt_count + 1) budget;
  failure_reason = some reason;
}

abbrev pub has_row_id : ℕ → NotificationDelivery → Bool
has_row_id k r = r.id == k

abbrev pub claim : NotificationDelivery → ℕ → List NotificationDelivery → List NotificationDelivery
claim row t = set_where (may_claim row.id) (claimed_at t)

-- The tables with other deliveries.
abbrev pub with_deliveries : Database → List NotificationDelivery → Database
with_deliveries d rows = record d { notification_deliveries = rows }

module _ (env : Env) (vars : VariablesByRecipient) (sid : String) (recipients : List User)
    (budget : ℕ) where
  record_reply-eq :
      (row : NotificationDelivery) (reply : SendReply) (w : World)
      → record_reply env vars sid recipients budget row reply w ≡ (
        ok (outcome_of budget row reply),
        record w {
          db = with_deliveries w.db (
              set_where
                (has_row_id row.id)
                (attempted budget row reply (env.now w.calls))
                w.db.notification_deliveries);
          calls = suc w.calls;
        },
      )
  unfolding record_reply outcome_of attempted
  record_reply-eq row (accepted m) w = refl
  record_reply-eq row (rejected m) w = refl

  -- The result of one attempt: one reply, recorded on the row, with at most one message.
  Attempt : NotificationDelivery → World → Outcome DeliveryOutcome × World → Type 0
  Attempt row w result =
      (reply : SendReply) × (t : ℕ) × (n : ℕ) × (box : List Message) × (result ≡ (
        ok (outcome_of budget row reply),
        record w {
          db = with_deliveries w.db (
              set_where (has_row_id row.id) (attempted budget row reply t)
                w.db.notification_deliveries);
          calls = n;
          outbox = box;
        },
      ))
      × (length box ≤ length w.outbox + 1)

  send-Attempt :
      (row : NotificationDelivery) (user : User) (o : Option ContentVariables) (w : World)
      → Attempt row w (send env vars sid recipients budget row user o w)
  unfolding Attempt send outcome_of attempted
  send-Attempt row user none w = (
    rejected (env.key_error_text row.recipient_user_id),
    env.now (suc w.calls),
    suc (suc w.calls),
    w.outbox,
    refl,
    omega arith,
  )
  send-Attempt row user (some v) w =
      let m : Message = record {
        to_number = user.mobile;
        content_sid = sid;
        content_variables = v;
      } in
      (
        env.send w.calls m,
        env.now (suc w.calls),
        suc (suc w.calls),
        m ∷ w.outbox,
        record_reply-eq row (env.send w.calls m)
            (record w { calls = suc w.calls; outbox = m ∷ w.outbox }),
        omega arith,
      )

  deliver-Attempt :
      (row : NotificationDelivery) (o : Option User) (w : World)
      → Attempt row w (deliver env vars sid recipients budget row o w)
  unfolding Attempt deliver outcome_of attempted
  deliver-Attempt row none w = (
    rejected "recipient no longer exists",
    env.now w.calls,
    suc w.calls,
    w.outbox,
    refl,
    omega arith,
  )
  deliver-Attempt row (some user) w =
      send-Attempt row user (variables_of row.recipient_user_id vars) w

  -- A row that cannot be claimed is skipped: no message, no change but the reading of the clock.
  pub dispatch_row_unclaimed :
      (row : NotificationDelivery) (w : World)
      → any (may_claim row.id) w.db.notification_deliveries ≡ false
      → dispatch_row env vars sid recipients budget row w
        ≡ (ok none, record w { calls = suc w.calls })
  unfolding dispatch_row
  dispatch_row_unclaimed row w h = rw (h, set_where-none _ _ _ h)

  -- The state after a claim that succeeded.
  claimed_world : NotificationDelivery → World → World
  claimed_world row w = record w {
    db = with_deliveries w.db (claim row (env.now w.calls) w.db.notification_deliveries);
    calls = suc w.calls;
  }

  dispatch_row-eq_deliver :
      (row : NotificationDelivery) (w : World)
      → any (may_claim row.id) w.db.notification_deliveries ≡ true
      → dispatch_row env vars sid recipients budget row w
        ≡ after_claim env vars sid recipients budget row true (claimed_world row w)
  unfolding dispatch_row claimed_world
  dispatch_row-eq_deliver row w h = rw h

  after_claim-eq :
      (row : NotificationDelivery) (w : World) {o : DeliveryOutcome} {w' : World}
      → deliver env vars sid recipients budget row
          (dict_get user_id_of row.recipient_user_id recipients)
          w
        ≡ (ok o, w')
      → after_claim env vars sid recipients budget row true w ≡ (ok (some o), w')
  unfolding after_claim
  after_claim-eq row w e = rw e

  pub dispatch_row_claimed :
      (row : NotificationDelivery) (w : World)
      → any (may_claim row.id) w.db.notification_deliveries ≡ true
      → (reply : SendReply) × (t : ℕ) × (u : ℕ) × (n : ℕ) × (box : List Message) × (dispatch_row env
            vars sid recipients budget row w
          ≡ (
            ok (some (outcome_of budget row reply)),
            record w {
              db = with_deliveries w.db (
                  set_where
                    (has_row_id row.id)
                    (attempted budget row reply u)
                    (claim row t w.db.notification_deliveries));
              calls = n;
              outbox = box;
            },
          ))
        × (length box ≤ length w.outbox + 1)
  unfolding Attempt claimed_world
  dispatch_row_claimed row w h =
      let a =
        deliver-Attempt row (dict_get user_id_of row.recipient_user_id recipients)
          (claimed_world row w) in
      (
        a.0,
        env.now w.calls,
        a.1,
        a.2,
        a.3,
        dispatch_row-eq_deliver row w h ∙ after_claim-eq row (claimed_world row w) a.4,
        a.5,
      )

  -- What one round does, claimed or not.
  Round : NotificationDelivery → World → Outcome (Option DeliveryOutcome) × World → Type 0
  Round row w result =
      (o : Option DeliveryOutcome) × (w' : World) × (result ≡ (ok o, w'))
      × (w'.db ≡ with_deliveries w.db w'.db.notification_deliveries)
      × (w'.committed ≡ w.committed)
      × (length w'.outbox ≤ length w.outbox + length (cons_some o []))

  dispatch_row-Round :
      (row : NotificationDelivery) (w : World)
      → Round row w (dispatch_row env vars sid recipients budget row w)
  unfolding Round
  dispatch_row-Round row w =
      elim (Bool-cases (any (may_claim row.id) w.db.notification_deliveries)) [
        | inl h ↦
            let (reply, t, u, n, box, e, b) = dispatch_row_claimed row w h in
            (some (outcome_of budget row reply), _, e, refl, refl, b)
        | inr h ↦ (none, _, dispatch_row_unclaimed row w h, refl, refl, omega arith)
      ]

  length-cons_some :
      (o : Option DeliveryOutcome) (os : List DeliveryOutcome)
      → (length (cons_some o os) ≡ length (cons_some o []) + length os)
        × (length (cons_some o []) ≤ 1)
  length-cons_some none os = (omega arith, omega arith)
  length-cons_some (some o) os = (omega arith, omega arith)

  -- The loop always returns its outcomes: no failure of the provider, no missing recipient and no
  -- missing variables stop it. It writes to no table but the deliveries, commits nothing, and hands
  -- over at most one message for each outcome.
  pub dispatch_deliveries_total :
      (rows : List NotificationDelivery) (w : World)
      → (outcomes : List DeliveryOutcome) × (w' : World) × (dispatch_deliveries env vars sid
            recipients budget rows w
          ≡ (ok outcomes, w'))
        × (w'.db ≡ with_deliveries w.db w'.db.notification_deliveries)
        × (w'.committed ≡ w.committed)
        × (length outcomes ≤ length rows)
        × (length w'.outbox ≤ length w.outbox + length outcomes)
  unfolding dispatch_deliveries Round
  dispatch_deliveries_total [] w = ([], w, refl, refl, refl, omega arith, omega arith)
  dispatch_deliveries_total (row ∷ rows) w =
      let (o, w1, e1, d1, c1, b1) = dispatch_row-Round row w in
      let (os, w2, e2, d2, c2, l2, b2) = dispatch_deliveries_total rows w1 in
      (
        cons_some o os,
        w2,
        rw (e1, e2),
        d2 ∙ ap (λ d. with_deliveries d w2.db.notification_deliveries) d1,
        c2 ∙ c1,
        omega (arith, length-cons_some o os),
        omega (arith, length-cons_some o os),
      )
