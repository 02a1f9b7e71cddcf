-- ===== src/Ride/Stamps.antt =====
-- What the timestamps and the fare of a ride say of its status (`Ride.transition` of
-- app_base/modules/ride/domain/entities.py).
use diddi_go_backend.Base.{ℕ, ◌≡◌, true, none, List, [], ◌∷◌, arith, is_some, inl, inr}
use diddi_go_backend.Ride.Status.{
  RideStatus, requested, matched, driver_en_route, arrived, in_progress, waiting, completed,
  cancelled_by_passenger, cancelled_by_driver, no_driver_found, status_eq, status_in,
  allowed_transitions,
}
use diddi_go_backend.Ride.Entity.{Ride, enter_status, attempt, new_ride}
use diddi_go_backend.Ride.Machine.{attempts, attempt-cases}

-- The statuses that a ride has only after its match, its driver's arrival and its start.
abbrev pub after_match : List RideStatus
after_match = matched ∷ driver_en_route ∷ arrived ∷ in_progress ∷ waiting ∷ completed ∷ []

abbrev pub after_arrival : List RideStatus
after_arrival = arrived ∷ in_progress ∷ waiting ∷ completed ∷ []

abbrev pub after_start : List RideStatus
after_start = in_progress ∷ waiting ∷ completed ∷ []

pub record IsStamped (r : Ride) : Type 0 where
  pub match_stamped : status_in r.status after_match ≡ true → is_some r.matched_at ≡ true
  pub arrival_stamped : status_in r.status after_arrival ≡ true → is_some r.arrived_at ≡ true
  pub start_stamped : status_in r.status after_start ≡ true → is_some r.started_at ≡ true
  pub unmatched : status_in r.status (requested ∷ no_driver_found ∷ []) ≡ true → r.matched_at ≡ none
  pub arrived_matched : is_some r.arrived_at ≡ true → is_some r.matched_at ≡ true
  pub started_arrived : is_some r.started_at ≡ true → is_some r.arrived_at ≡ true
  pub completion_stamped : is_some r.completed_at ≡ status_eq r.status completed
  pub cancellation_stamped :
      is_some r.cancelled_at
      ≡ status_in r.status (cancelled_by_passenger ∷ cancelled_by_driver ∷ [])
  pub fare_settled :
      r.status ≡ completed → is_some r.estimated_fare ≡ true → is_some r.final_fare ≡ true

enter-IsStamped :
    (r : Ride) (t : RideStatus) (now : ℕ)
    → status_in t (allowed_transitions r.status) ≡ true
    → IsStamped r
    → IsStamped (enter_status r t now none)
unfolding enter_status
enter-IsStamped r t now ok h = ground arith

attempt-IsStamped :
    (r : Ride) (t : RideStatus) (now : ℕ) → IsStamped r → IsStamped (attempt r t now)
attempt-IsStamped r t now h = elim (attempt-cases r t now) [
  | inl e ↦ rw e h
  | inr (ok, e) ↦ rw e (enter-IsStamped r t now ok h)
]

-- If the timestamps of a ride and its fare agree with its status, they still do after any
-- sequence of requests: the statuses after the match, the arrival and the start have their
-- moments, the moments are there in that order, a moment of completion or of cancellation is
-- there exactly in those statuses, and a completed ride with an estimate has a final fare.
pub attempts-IsStamped :
    (r : Ride) (l : List (RideStatus × ℕ)) → IsStamped r → IsStamped (attempts r l)
unfolding attempts
attempts-IsStamped r [] h = h
attempts-IsStamped r ((t, now) ∷ l) h =
    attempts-IsStamped (attempt r t now) l (attempt-IsStamped r t now h)

pub new_ride-IsStamped : (id user : ℕ) → IsStamped (new_ride id user)
unfolding new_ride
new_ride-IsStamped id user = ground arith

-- A moment once recorded, and the fare once fixed.
abbrev pub Keeps : Ride → Ride → Type 0
Keeps r r' =
    (is_some r.matched_at ≡ true → r'.matched_at ≡ r.matched_at)
    × (is_some r.arrived_at ≡ true → r'.arrived_at ≡ r.arrived_at)
    × (is_some r.started_at ≡ true → r'.started_at ≡ r.started_at)
    × (is_some r.completed_at ≡ true → r'.completed_at ≡ r.completed_at)
    × (is_some r.cancelled_at ≡ true → r'.cancelled_at ≡ r.cancelled_at)
    × (is_some r.final_fare ≡ true → r'.final_fare ≡ r.final_fare)
    × (r'.id ≡ r.id)
    × (r'.driver_id ≡ r.driver_id)

attempt-Keeps : (r : Ride) (t : RideStatus) (now : ℕ) → Keeps r (attempt r t now)
unfolding attempt
attempt-Keeps r t now = ground arith

Keeps-trans : (a b c : Ride) → Keeps a b → Keeps b c → Keeps a c
Keeps-trans a b c h k = ground arith

-- No sequence of requests changes a moment or a final fare that a ride already has, nor its
-- identifier or its driver.
pub attempts-Keeps : (r : Ride) (l : List (RideStatus × ℕ)) → Keeps r (attempts r l)
unfolding attempts
attempts-Keeps r [] = ground arith
attempts-Keeps r ((t, now) ∷ l) =
    Keeps-trans r (attempt r t now) (attempts (attempt r t now) l) (attempt-Keeps r t now)
      (attempts-Keeps (attempt r t now) l)
