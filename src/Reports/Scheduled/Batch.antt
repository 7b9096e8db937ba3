-- ===== src/Reports/Scheduled/Batch.antt =====
-- Why the rows of one batch of bulk_create do not clash with the table or with each other
-- (domain/scheduled_notifications.py, adapters/persistence/notifications.py).
use growth_track.RowLaws.{All}
use growth_track.Models.{NotificationType, NotificationDelivery}
use growth_track.Persistence.Deliveries.{insert_rows, clashes, clashes_as, same_day}
use growth_track.Prelude.{
  ℕ, ◌≡◌, refl, sym, ap, ◌∙◌, inl, inr, Bool, true, false, ◌&&◌, none, some, List, [], ◌∷◌, map,
  arith, Bool-cases, any, ◌==◌, contains, Distinct,
}

abbrev pub is_scheduled : NotificationType → Bool
is_scheduled NotificationType.manual = false
is_scheduled NotificationType.scheduled = true

-- A delivery of the report of a day to a recipient.
abbrev pub reports_to : ℕ → ℕ → NotificationDelivery → Bool
reports_to today user_id s =
    is_scheduled s.notification_type
    && user_id == s.recipient_user_id
    && same_day (some today) s.operational_day

-- The rows of one batch are of the day.
abbrev pub OfDay : ℕ → NotificationDelivery → Type 0
OfDay today r =
    (r.notification_type ≡ NotificationType.scheduled) × (r.operational_day ≡ some today)

-- A row of the report of a day, whose recipient has none in a table.
abbrev pub IsNew : ℕ → List NotificationDelivery → NotificationDelivery → Type 0
IsNew today table r =
    (r.notification_type ≡ NotificationType.scheduled)
    × (r.operational_day ≡ some today)
    × (any (reports_to today r.recipient_user_id) table ≡ false)

abbrev pub recipient_of : NotificationDelivery → ℕ
recipient_of r = r.recipient_user_id

-- The rows of a batch on top of a table, the last one first.
abbrev pub onto : List NotificationDelivery → List NotificationDelivery → List NotificationDelivery
onto [] table = table
onto (row ∷ rows) table = onto rows (row ∷ table)

clashes_as-reports_to :
    (t : NotificationType) (today : ℕ) (r s : NotificationDelivery)
    → r.operational_day ≡ some today
    → clashes_as NotificationType.scheduled t r s ≡ (
        is_scheduled t
        && r.recipient_user_id == s.recipient_user_id
        && same_day (some today) s.operational_day)
clashes_as-reports_to NotificationType.manual today r s e = refl
clashes_as-reports_to NotificationType.scheduled today r s e = rw e

any-clashes :
    (today : ℕ) (r : NotificationDelivery) (table : List NotificationDelivery)
    → OfDay today r
    → any (clashes r) table ≡ any (reports_to today r.recipient_user_id) table
any-clashes today r [] h = refl
any-clashes today r (s ∷ table) (a, b) =
    let here : clashes r s ≡ reports_to today r.recipient_user_id s =
      ap (λ t. clashes_as t s.notification_type r s) a
      ∙ clashes_as-reports_to s.notification_type today r s b in
    let rest = any-clashes today r table (a, b) in rw (here, rest)

weaken :
    (today : ℕ) (r : NotificationDelivery) (table rows : List NotificationDelivery)
    → All (IsNew today (r ∷ table)) rows
    → All (IsNew today table) rows
weaken today r table [] h = tt
weaken today r table (row ∷ rows) ((a, b, c), hs) =
    ((a, b, ground (arith, c)), weaken today r table rows hs)

-- The recipient of a row is none of those that have none beside it.
not_again :
    (today : ℕ) (r : NotificationDelivery) (table rows : List NotificationDelivery)
    → OfDay today r
    → All (IsNew today (r ∷ table)) rows
    → contains r.recipient_user_id (map recipient_of rows) ≡ false
not_again today r table [] h q = refl
not_again today r table (row ∷ rows) (a, b) ((c, d, e), qs) =
    let rest = not_again today r table rows (a, b) qs in
    let reported : reports_to today row.recipient_user_id r
        ≡ (row.recipient_user_id == r.recipient_user_id) =
      rw (a, b) (ground arith) in
    ground (arith, reported, e, rest)

-- A batch of the day that is inserted stands on top of the table; its recipients are pairwise
-- different and have no earlier delivery of the day.
pub insert_rows-IsNew :
    (today : ℕ) (rows table table' : List NotificationDelivery)
    → insert_rows rows table ≡ some table'
    → All (OfDay today) rows
    → (table' ≡ onto rows table) × All (IsNew today table) rows × Distinct (map recipient_of rows)
unfolding insert_rows
insert_rows-IsNew today [] table table' h q =
    (let same : some table ≡ some table' = h in cc, tt, tt)
insert_rows-IsNew today (row ∷ rows) table table' h ((a, b), q) =
    elim (Bool-cases (any (clashes row) table)) [
      | inl e ↦ let bad : none ≡ some table' = rw e at h in cc
      | inr e ↦
          let rest : insert_rows rows (row ∷ table) ≡ some table' = rw e at h in
          let (same, new, distinct) = insert_rows-IsNew today rows (row ∷ table) table' rest q in
          (
            same,
            ((a, b, sym (any-clashes today row table (a, b)) ∙ e), weaken today row table rows new),
            (not_again today row table rows (a, b) new, distinct),
          )
    ]
