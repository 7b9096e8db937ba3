-- ===== src/Notifications/Webhook/OnlyRow.antt =====
-- The one row that a callback finds by its provider id (domain/notifications.py).
use growth_track.RowLaws.{All}
use growth_track.Prelude.{
  subst, ◌≡◌, sym, inl, inr, Bool, true, false, some, List, [], ◌∷◌, map, arith, ==_iff, ==_refl,
  Bool-cases, rows_where, set_where, contains, Distinct,
}
use growth_track.Models.{NotificationDelivery}
use growth_track.Persistence.Deliveries.{only_row}
use growth_track.Notifications.Dispatch.Laws.{has_row_id}
use growth_track.Notifications.Dispatch.Budget.{Agrees, row_id}

pub only_row-set_where :
    (f : NotificationDelivery → NotificationDelivery) (xs : List NotificationDelivery)
    (r : NotificationDelivery)
    → only_row xs ≡ some r
    → only_row (set_where (has_row_id r.id) f xs) ≡ some (f r)
only_row-set_where f [] r h = cc
only_row-set_where f (x ∷ []) r h = let same : x ≡ r = ground arith in rw same (rw (==_refl r.id))
only_row-set_where f (x ∷ y ∷ xs) r h = cc

-- The row is the only one, changed or not.
pub only_row-changed :
    (p : NotificationDelivery → Bool) (f : NotificationDelivery → NotificationDelivery)
    (xs : List NotificationDelivery) (r : NotificationDelivery)
    → only_row xs ≡ some r
    → p r ≡ true
    → only_row (set_where p f xs) ≡ some (f r)
only_row-changed p f [] r h e = cc
only_row-changed p f (x ∷ []) r h e = let same : x ≡ r = ground arith in rw same (rw e)
only_row-changed p f (x ∷ y ∷ xs) r h e = cc

pub only_row-kept :
    (p : NotificationDelivery → Bool) (f : NotificationDelivery → NotificationDelivery)
    (xs : List NotificationDelivery) (r : NotificationDelivery)
    → only_row xs ≡ some r
    → p r ≡ false
    → only_row (set_where p f xs) ≡ some r
only_row-kept p f [] r h e = cc
only_row-kept p f (x ∷ []) r h e = let same : x ≡ r = ground arith in rw same (rw e)
only_row-kept p f (x ∷ y ∷ xs) r h e = cc

only_row-head :
    (x r : NotificationDelivery) (xs : List NotificationDelivery)
    → only_row (x ∷ xs) ≡ some r
    → x ≡ r
only_row-head x r [] h = ground arith
only_row-head x r (y ∷ xs) h = cc

row_id-only_row :
    (p : NotificationDelivery → Bool) (xs : List NotificationDelivery) (r : NotificationDelivery)
    → only_row (rows_where p xs) ≡ some r
    → contains r.id (map row_id xs) ≡ true
row_id-only_row p [] r h = cc
row_id-only_row p (x ∷ xs) r h = elim (Bool-cases (p x)) [
  | inl e ↦
      let same : x ≡ r = only_row-head x r (rows_where p xs) (rw e at h) in
      rw same (rw (==_refl r.id))
  | inr e ↦ ground (arith, row_id-only_row p xs r (rw e at h))
]

pub Agrees-absent :
    (xs : List NotificationDelivery) (r : NotificationDelivery)
    → contains r.id (map row_id xs) ≡ false
    → Agrees xs r
Agrees-absent [] r h = tt
Agrees-absent (x ∷ xs) r h =
    (λ same. ground (arith, h, same), Agrees-absent xs r (ground (arith, h)))

pub only_row-Agrees :
    (p : NotificationDelivery → Bool) (xs : List NotificationDelivery) (r : NotificationDelivery)
    → Distinct (map row_id xs)
    → only_row (rows_where p xs) ≡ some r
    → Agrees xs r
only_row-Agrees p [] r d h = tt
only_row-Agrees p (x ∷ xs) r d h = elim (Bool-cases (p x)) [
  | inl e ↦
      let same : x ≡ r = only_row-head x r (rows_where p xs) (rw e at h) in
      (λ _. same, Agrees-absent xs r (subst (λ y. contains y.id (map row_id xs) ≡ false) same d.0))
  | inr e ↦
      let there = row_id-only_row p xs r (rw e at h) in
      (λ same. ground (arith, there, same, d.0), only_row-Agrees p xs r d.1 (rw e at h))
]

pub only_row-passes :
    (p : NotificationDelivery → Bool) (xs : List NotificationDelivery) (r : NotificationDelivery)
    → only_row (rows_where p xs) ≡ some r
    → p r ≡ true
only_row-passes p [] r h = cc
only_row-passes p (x ∷ xs) r h = elim (Bool-cases (p x)) [
  | inl e ↦ subst (λ y. p y ≡ true) (only_row-head x r (rows_where p xs) (rw e at h)) e
  | inr e ↦ only_row-passes p xs r (rw e at h)
]

pub only_row-All :
    (P : NotificationDelivery → Type 0) (p : NotificationDelivery → Bool)
    (xs : List NotificationDelivery) (r : NotificationDelivery)
    → All P xs
    → only_row (rows_where p xs) ≡ some r
    → P r
only_row-All P p [] r a h = cc
only_row-All P p (x ∷ xs) r a h = elim (Bool-cases (p x)) [
  | inl e ↦ subst P (only_row-head x r (rows_where p xs) (rw e at h)) a.0
  | inr e ↦ only_row-All P p xs r a.1 (rw e at h)
]

pub set_where-All :
    (P : NotificationDelivery → Type 0) (f : NotificationDelivery → NotificationDelivery)
    (r : NotificationDelivery) (xs : List NotificationDelivery)
    → All P xs
    → Agrees xs r
    → P (f r)
    → All P (set_where (has_row_id r.id) f xs)
set_where-All P f r [] h g k = tt
set_where-All P f r (x ∷ xs) h g k = elim (Bool-cases (has_row_id r.id x)) [
  | inl e ↦ rw e (
    subst (λ y. P (f y)) (sym (g.0 ((==_iff x.id r.id).0 e))) k,
    set_where-All P f r xs h.1 g.1 k,
  )
  | inr e ↦ rw e (h.0, set_where-All P f r xs h.1 g.1 k)
]
