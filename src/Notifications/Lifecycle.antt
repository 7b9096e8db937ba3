-- ===== src/Notifications/Lifecycle.antt =====
-- The life of a delivery as an abstract machine, and the rows that only take its steps.
pub mod Refinement
use growth_track.Models.{DeliveryStatus, NotificationDelivery}
use growth_track.Prelude.{ℕ, ◌+◌, ◌≤◌, ◌<◌, ◌≡◌, Bool, true, false, List, [], ◌∷◌}

-- To be sent, for the first time or again.
abbrev pub is_waiting : DeliveryStatus → Bool
is_waiting DeliveryStatus.queued = true
is_waiting DeliveryStatus.failed_retryable = true
is_waiting _ = false

-- Not answered by a callback yet.
abbrev pub is_open : DeliveryStatus → Bool
is_open DeliveryStatus.queued = true
is_open DeliveryStatus.sending = true
is_open _ = false

-- One event in the life of a delivery: the status and the number of attempts before and after it,
-- with a budget of retries.
pub data Step (budget : ℕ) : DeliveryStatus → ℕ → DeliveryStatus → ℕ → Type 0 where
  -- an attempt that the provider takes, or that fails with and without a further chance
  taken :
      {s : DeliveryStatus} {n : ℕ}
      → is_waiting s ≡ true
      → Step budget s n DeliveryStatus.sending (n + 1)
  refused :
      {s : DeliveryStatus} {n : ℕ}
      → is_waiting s ≡ true
      → n < budget
      → Step budget s n DeliveryStatus.failed_retryable (n + 1)
  given_up :
      {s : DeliveryStatus} {n : ℕ}
      → is_waiting s ≡ true
      → budget ≤ n
      → Step budget s n DeliveryStatus.failed (n + 1)
  -- a callback that reports success, or a failure with and without a further chance
  arrived :
      {s : DeliveryStatus} {n : ℕ} → is_open s ≡ true → Step budget s n DeliveryStatus.delivered n
  lost :
      {s : DeliveryStatus} {n : ℕ}
      → is_open s ≡ true
      → n ≤ budget
      → Step budget s n DeliveryStatus.failed_retryable n
  lost_for_good :
      {s : DeliveryStatus} {n : ℕ}
      → is_open s ≡ true
      → budget < n
      → Step budget s n DeliveryStatus.failed n

pub data Steps (budget : ℕ) : DeliveryStatus → ℕ → DeliveryStatus → ℕ → Type 0 where
  here : {s : DeliveryStatus} {n : ℕ} → Steps budget s n s n
  then :
      {s t u : DeliveryStatus} {n m k : ℕ}
      → Step budget s n t m
      → Steps budget t m u k
      → Steps budget s n u k

-- The row of the same delivery, after some events of its life.
abbrev pub Lives : ℕ → NotificationDelivery → NotificationDelivery → Type 0
Lives budget r r' =
    (r'.id ≡ r.id)
    × (r'.recipient_user_id ≡ r.recipient_user_id)
    × Steps budget r.status r.attempt_count r'.status r'.attempt_count

abbrev pub AllLive : ℕ → List NotificationDelivery → List NotificationDelivery → Type 0
AllLive budget [] [] = Unit
AllLive budget [] (r' ∷ rows') = ⊥
AllLive budget (r ∷ rows) [] = ⊥
AllLive budget (r ∷ rows) (r' ∷ rows') = Lives budget r r' × AllLive budget rows rows'

-- A delivered row and a row that failed for good have no further event.
abbrev pub is_final : DeliveryStatus → Bool
is_final DeliveryStatus.delivered = true
is_final DeliveryStatus.failed = true
is_final _ = false
