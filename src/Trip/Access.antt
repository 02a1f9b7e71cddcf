-- ===== src/Trip/Access.antt =====
-- What the ride use cases share (app_base/modules/ride/application/services.py): the settings, the
-- functions that are not the service's own, `load_ride`, `_is_assigned_driver`,
-- `_rating_role_for_actor`, `_require_active_ride_for_driver`, and the moves of a ride.
use diddi_go_backend.Base.{
  ℕ, Bool, false, not, ◌||◌, Option, none, some, List, [], ◌∷◌, ◌++◌, String, if◌then◌else◌, ◌==◌,
  find, str_eq,
}
use diddi_go_backend.Base.Int.{ℤ}
use diddi_go_backend.Base.Transaction.{
  Error, api_error, Result, ok, err, invalid_status_transition, Task, pure, call, ask, lift,
  raise_if, ◌>>=◌, ◌>>◌,
}
use diddi_go_backend.Ride.Status.{
  RideStatus, in_progress, waiting, completed, cancelled_by_driver, status_in,
}
use diddi_go_backend.Ride.Entity.{Metadata, TransitionResult, moved, transition}
use diddi_go_backend.Trip.Entities.{
  Trip, TripDb, RaterRole, passenger, driver, DriverProfile, PriorityEvent, PriorityEventKind,
  ride_completed, ride_cancelled_by_driver,
}
use diddi_go_backend.Trip.Rides.{find_by_id}
use diddi_go_backend.Trip.Pricing.{Fraction}

pub record Settings : Type 0 where
  pub driver_arrival_max_distance_meters : ℕ
  pub pre_ride_wait_free_seconds : ℕ
  pub pre_ride_wait_price_per_minute_xof : ℕ
  pub pre_ride_no_show_seconds : ℕ
  pub ride_start_code_max_attempts : ℕ
  pub ride_emergency_rate_limit_seconds : ℕ
  pub ride_emergency_contact_notify_once : Bool
  pub waiting_price_per_minute_xof : ℕ
  pub waiting_stationary_speed_threshold_kmh : ℕ
  pub points_ride_completed : ℤ
  pub points_ride_cancelled_by_driver : ℤ

-- One sample of a batch of locations, as the request has it.
pub record Sample : Type 0 where
  pub location : ℕ
  pub recorded_at : Option ℕ
  pub heading : Option ℕ
  pub speed_kmh : Option ℕ
  pub accuracy_m : Option ℕ
  pub source : Option String

-- Hashing, floating point and text: `_ride_start_code` (an HMAC), `_hash_start_code` and the hash
-- of a batch (SHA-256), `_distance_meters` against a maximum, its text, `round(float(x))`, and
-- the text of a number.
pub record Externals : Type 0 where
  pub ride_start_code : ℕ → String
  pub hash_start_code : ℕ → String → String
  pub payload_hash : List Sample → String
  pub farther_than : ℕ → ℕ → ℕ → Bool
  pub distance_text : ℕ → ℕ → String
  pub round_float : Fraction → ℕ
  pub text : ℕ → String

-- The user that calls, with the role of the token.
pub record Actor : Type 0 where
  pub user_id : ℕ
  pub role : String

abbrev pub Flow : Type 0 → Type 0
Flow A = Task TripDb A

abbrev pub is_admin : Actor → Bool
is_admin actor = str_eq actor.role "admin"

-- a value that must be there
abbrev pub expect : {A : Type 0} → Error → Option A → Result A
expect e none = err e
expect e (some a) = ok a

-- `load_ride`
unfoldable pub load_ride : ℕ → Flow Trip
load_ride ride_id =
    ask (find_by_id ride_id) >>= λ found. lift (expect (api_error 404 "RIDE_NOT_FOUND") found)

-- `_is_assigned_driver`, with `_driver_profile_id_for_user`
unfoldable pub is_assigned_driver : Trip → (user_id : ℕ) → TripDb → Bool
is_assigned_driver t user_id db = elim t.ride.driver_id [
  | some driver_id ↦ elim (find (λ (p : DriverProfile). p.user_id == user_id) db.profiles) [
    | some profile ↦ driver_id == profile.id
    | none ↦ false
  ]
  | none ↦ false
]

abbrev pub not_owned : Error
not_owned = api_error 403 "RIDE_NOT_OWNED_BY_USER"

-- the guard of what only the assigned driver, or an administrator, may do
unfoldable pub require_driver : Trip → Actor → Flow (Unit {0})
require_driver t actor = ask (is_assigned_driver t actor.user_id) >>= λ assigned.
    raise_if (not (is_admin actor || assigned)) not_owned

-- the guard of what only the two sides of a ride, or an administrator, may do
unfoldable pub require_participant : Trip → Actor → Flow (Unit {0})
require_participant t actor = ask (is_assigned_driver t actor.user_id) >>= λ assigned.
    raise_if (not (is_admin actor || ((t.ride.passenger_user_id == actor.user_id) || assigned)))
      not_owned

abbrev pub is_under_way : Trip → Bool
is_under_way t = status_in t.ride.status (in_progress ∷ waiting ∷ [])

-- `_require_active_ride_for_driver`
unfoldable pub require_active_ride_for_driver : ℕ → Actor → Flow Trip
require_active_ride_for_driver ride_id actor = load_ride ride_id >>= λ t.
    require_driver t actor
    >> raise_if (not (is_under_way t)) (api_error 409 "RIDE_NOT_ACTIVE")
    >> pure t

-- `_rating_role_for_actor`
unfoldable pub rating_role_for_actor : Trip → Actor → TripDb → Option RaterRole
rating_role_for_actor t actor db =
    if t.ride.passenger_user_id == actor.user_id
    then some passenger
    else if is_admin actor
    then none
    else if is_assigned_driver t actor.user_id db
    then some driver
    else none

abbrev pub moved_trip : Trip → TransitionResult → Result Trip
moved_trip t (moved r) = ok (record t { ride = r })
moved_trip t (TransitionResult.invalid_status_transition _ _) = err invalid_status_transition

-- `ride.transition(…)`
unfoldable pub move : Trip → RideStatus → Option ℕ → (clock : ℕ) → Option Metadata → Result Trip
move t new_status when clock metadata =
    moved_trip t (transition t.ride new_status when clock metadata)

-- `record_ride_outcome` of app_base/modules/ride/application/priority_service.py
abbrev pub outcome_kind : RideStatus → Option PriorityEventKind
outcome_kind completed = some ride_completed
outcome_kind cancelled_by_driver = some ride_cancelled_by_driver
outcome_kind _ = none

abbrev pub points_for_ride_outcome : Settings → PriorityEventKind → ℤ
points_for_ride_outcome cfg ride_completed = cfg.points_ride_completed
points_for_ride_outcome cfg ride_cancelled_by_driver = cfg.points_ride_cancelled_by_driver

abbrev pub append_event : PriorityEvent → TripDb → Result (Unit {0}) × TripDb
append_event event db = (ok tt, record db { priority_events = db.priority_events ++ event ∷ [] })

unfoldable pub record_ride_outcome : Settings → Trip → Flow (Unit {0})
record_ride_outcome cfg t = elim (outcome_kind t.ride.status) [
  | some kind ↦ elim t.ride.driver_id [
    | some driver_id ↦ call (
        append_event record {
          driver_id = driver_id;
          kind = kind;
          points = points_for_ride_outcome cfg kind;
          ride_id = t.ride.id;
        })
    | none ↦ pure tt
  ]
  | none ↦ pure tt
]
