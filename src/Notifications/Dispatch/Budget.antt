-- ===== src/Notifications/Dispatch/Budget.antt =====
-- The retry budget over the whole dispatch loop (dispatch_deliveries in domain/notifications.py).
use growth_track.Prelude.{
  ℕ, suc, String, subst, ◌≡◌, sym, ◌∙◌, ◌≢◌, inl, inr, true, false, Option, List, [], ◌∷◌, map,
  arith, ◌==◌, if◌then◌else◌, ==_iff, ==_refl, Bool-cases, set_where, any, contains, Distinct,
}
use growth_track.RowLaws.{All}
use growth_track.Models.{User, NotificationDelivery}
use growth_track.Session.{SendReply, World, Env, ok, accepted, rejected}
use growth_track.Persistence.Deliveries.{claimed_at, may_claim, is_claimable}
use growth_track.Notifications.Dispatch.{
  VariablesByRecipient, DeliveryOutcome, dispatch_row, dispatch_deliveries,
}
use growth_track.Notifications.Delivery.{IsConsistent, accepted-IsConsistent, failed-IsConsistent}
use growth_track.Notifications.Dispatch.Laws.{
  dispatch_deliveries_total, dispatch_row_unclaimed, dispatch_row_claimed, attempted, claim,
  with_deliveries, has_row_id,
}

-- The table holds the row as it was read: nothing else has the row's id.
abbrev pub Agrees : List NotificationDelivery → NotificationDelivery → Type 0
Agrees table row = All (λ r. r.id ≡ row.id → r ≡ row) table

abbrev pub row_id : NotificationDelivery → ℕ
row_id r = r.id

-- What a claimed round makes of one row of the table.
abbrev pub touched_row :
    ℕ → NotificationDelivery → SendReply → ℕ → ℕ → NotificationDelivery → NotificationDelivery
touched_row budget row reply t u r =
    let r' = if may_claim row.id r then claimed_at t r else r in
    if has_row_id row.id r' then attempted budget row reply u r' else r'

-- What a claimed round leaves of the table.
abbrev pub touched :
    ℕ
    → NotificationDelivery
    → SendReply
    → ℕ
    → ℕ
    → List NotificationDelivery
    → List NotificationDelivery
touched budget row reply t u table =
    set_where (has_row_id row.id) (attempted budget row reply u) (claim row t table)

pub touched_row_self :
    (budget : ℕ) (row : NotificationDelivery) (reply : SendReply) (t u : ℕ)
    → is_claimable row.status ≡ true
    → touched_row budget row reply t u row ≡ attempted budget row reply u (claimed_at t row)
touched_row_self budget row reply t u c = rw (==_refl, c) (rw ==_refl)

pub touched_row_other :
    (budget : ℕ) (row : NotificationDelivery) (reply : SendReply) (t u : ℕ)
    (r : NotificationDelivery)
    → r.id == row.id ≡ false
    → touched_row budget row reply t u r ≡ r
touched_row_other budget row reply t u r e = rw e (rw e)

pub claimable_of :
    (row : NotificationDelivery) (table : List NotificationDelivery)
    → Agrees table row
    → any (may_claim row.id) table ≡ true
    → is_claimable row.status ≡ true
claimable_of row [] g h = cc
claimable_of row (r ∷ table) g h = elim (Bool-cases (may_claim row.id r)) [
  | inl e ↦
      let same : r ≡ row = g.0 (ground arith) in
      let c : is_claimable r.status ≡ true = ground arith in rw same at c
  | inr e ↦ claimable_of row table g.1 (rw e at h)
]

attempted-IsConsistent :
    (budget : ℕ) (row : NotificationDelivery) (reply : SendReply) (t u : ℕ)
    → IsConsistent budget row
    → is_claimable row.status ≡ true
    → IsConsistent budget (attempted budget row reply u (claimed_at t row))
unfolding attempted
attempted-IsConsistent budget row (accepted sid) t u h c =
    accepted-IsConsistent budget row sid t u h c
attempted-IsConsistent budget row (rejected reason) t u h c =
    failed-IsConsistent budget row reason t u h c

touched_row-IsConsistent :
    (budget : ℕ) (row : NotificationDelivery) (reply : SendReply) (t u : ℕ)
    (r : NotificationDelivery)
    → is_claimable row.status ≡ true
    → (r.id ≡ row.id → r ≡ row)
    → IsConsistent budget r
    → IsConsistent budget (touched_row budget row reply t u r)
touched_row-IsConsistent budget row reply t u r c g h = elim (Bool-cases (r.id == row.id)) [
  | inl e ↦
      let same : r ≡ row = g ((==_iff r.id row.id).0 e) in
      subst (λ x. IsConsistent budget (touched_row budget row reply t u x)) (sym same)
        (subst (IsConsistent budget) (sym (touched_row_self budget row reply t u c))
          (attempted-IsConsistent budget row reply t u (subst (IsConsistent budget) same h) c))
  | inr e ↦ subst (IsConsistent budget) (sym (touched_row_other budget row reply t u r e)) h
]

touched-IsConsistent :
    (budget : ℕ) (row : NotificationDelivery) (reply : SendReply) (t u : ℕ)
    (table : List NotificationDelivery)
    → is_claimable row.status ≡ true
    → Agrees table row
    → All (IsConsistent budget) table
    → All (IsConsistent budget) (touched budget row reply t u table)
touched-IsConsistent budget row reply t u [] c g h = tt
touched-IsConsistent budget row reply t u (r ∷ table) c g h = (
  touched_row-IsConsistent budget row reply t u r c g.0 h.0,
  touched-IsConsistent budget row reply t u table c g.1 h.1,
)

touched_row-id :
    (budget : ℕ) (row : NotificationDelivery) (reply : SendReply) (t u : ℕ)
    (r : NotificationDelivery)
    → (touched_row budget row reply t u r).id ≡ r.id
unfolding attempted
touched_row-id budget row (accepted sid) t u r = ground arith
touched_row-id budget row (rejected reason) t u r = ground arith

touched_row-keeps :
    (budget : ℕ) (row other : NotificationDelivery) (reply : SendReply) (t u : ℕ)
    (r : NotificationDelivery)
    → other.id ≢ row.id
    → (r.id ≡ other.id → r ≡ other)
    → (touched_row budget row reply t u r).id ≡ other.id
    → touched_row budget row reply t u r ≡ other
touched_row-keeps budget row other reply t u r ne g e =
    let e' : r.id ≡ other.id = sym (touched_row-id budget row reply t u r) ∙ e in
    let away : r.id == row.id ≡ false = ground (arith, e', ne) in
    touched_row_other budget row reply t u r away ∙ g e'

touched-Agrees :
    (budget : ℕ) (row other : NotificationDelivery) (reply : SendReply) (t u : ℕ)
    (table : List NotificationDelivery)
    → other.id ≢ row.id
    → Agrees table other
    → Agrees (touched budget row reply t u table) other
touched-Agrees budget row other reply t u [] ne g = tt
touched-Agrees budget row other reply t u (r ∷ table) ne g = (
  touched_row-keeps budget row other reply t u r ne g.0,
  touched-Agrees budget row other reply t u table ne g.1,
)

pub Agrees-All :
    (budget : ℕ) (row : NotificationDelivery) (reply : SendReply) (t u : ℕ)
    (table rows : List NotificationDelivery)
    → contains row.id (map row_id rows) ≡ false
    → All (Agrees table) rows
    → All (Agrees (touched budget row reply t u table)) rows
Agrees-All budget row reply t u table [] n g = tt
Agrees-All budget row reply t u table (other ∷ rows) n g = (
  touched-Agrees budget row other reply t u table (ground (arith, n)) g.0,
  Agrees-All budget row reply t u table rows (ground (arith, n)) g.1,
)

abbrev pub KeepsBudget : ℕ → World → Type 0
KeepsBudget budget w = All (IsConsistent budget) w.db.notification_deliveries

module _ (env : Env) (vars : VariablesByRecipient) (sid : String) (recipients : List User)
    (budget : ℕ) where
  -- The world after the loop is the world after the rest of it.
  pub after_row :
      (row : NotificationDelivery) (rows : List NotificationDelivery) (w w' : World)
      {o : Option DeliveryOutcome}
      → dispatch_row env vars sid recipients budget row w ≡ (ok o, w')
      → (dispatch_deliveries env vars sid recipients budget (row ∷ rows) w).1
        ≡ (dispatch_deliveries env vars sid recipients budget rows w').1
  unfolding dispatch_deliveries
  after_row row rows w w' e =
      let (os, w2, e2, d2, c2, l2, b2) =
        dispatch_deliveries_total env vars sid recipients budget rows w' in
      rw (e, e2)

  -- If every row of the table keeps the retry budget, the rows to send have pairwise different ids
  -- and the table holds each of them as it was read, then every row keeps the retry budget after
  -- the loop, whatever the provider answered and whoever of the recipients was missing.
  pub dispatch_deliveries-IsConsistent :
      (rows : List NotificationDelivery) (w : World)
      → All (IsConsistent budget) w.db.notification_deliveries
      → Distinct (map row_id rows)
      → All (Agrees w.db.notification_deliveries) rows
      → All
          (IsConsistent budget)
          (dispatch_deliveries env vars sid recipients budget rows w).1.db.notification_deliveries
  unfolding dispatch_deliveries
  dispatch_deliveries-IsConsistent [] w h d g = h
  dispatch_deliveries-IsConsistent (row ∷ rows) w h d g =
      elim (Bool-cases (any (may_claim row.id) w.db.notification_deliveries)) [
        | inl c ↦
            let (reply, t, u, n, box, e, b) =
              dispatch_row_claimed env vars sid recipients budget row w c in
            let w' : World = record w {
              db = with_deliveries w.db (touched budget row reply t u w.db.notification_deliveries);
              calls = n;
              outbox = box;
            } in
            let claimable = claimable_of row w.db.notification_deliveries g.0 c in
            subst (KeepsBudget budget) (sym (after_row row rows w w' e)) (
              dispatch_deliveries-IsConsistent rows w'
                (touched-IsConsistent budget row reply t u w.db.notification_deliveries claimable
                  g.0 h)
                d.1 (Agrees-All budget row reply t u w.db.notification_deliveries rows d.0 g.1))
        | inr c ↦
            subst (KeepsBudget budget)
              (sym (
                after_row row rows w _
                  (dispatch_row_unclaimed env vars sid recipients budget row w c)))
              (dispatch_deliveries-IsConsistent rows (record w { calls = suc w.calls }) h d.1 g.1)
      ]
