-- ===== src/Ride/Entity.antt =====
-- The `Ride` entity and `Ride.transition` (app_base/modules/ride/domain/entities.py).
-- The record has the fields that the modelled operations read or write. Identifiers (UUID) are
-- only compared, so they are numbers; moments are microseconds since an epoch; an amount is a
-- whole number of hundredths of a franc, the scale of the columns it is stored in. A place is an
-- opaque value handed to the location service and to the router, named by a number.
use diddi_go_backend.Base.{
  ℕ, Bool, false, not, ◌&&◌, Option, none, some, List, [], ◌∷◌, ◌++◌, String, if◌then◌else◌,
  is_some, or_else,
}
use diddi_go_backend.Base.Int.{ℤ}
use diddi_go_backend.Ride.Status.{
  RideStatus, requested, matched, arrived, in_progress, completed, cancelled_by_passenger,
  cancelled_by_driver, VehicleCategory, ComfortLevel, PaymentMethod, status_eq, status_in,
  allowed_transitions, is_active_status,
}

-- `metadata: dict | None`: the model only stores it.
abbrev pub Metadata : Type 0
Metadata = List (String × String)

pub record RideStatusTransition : Type 0 where
  pub ride_id : ℕ
  pub from_status : Option RideStatus
  pub to_status : RideStatus
  pub changed_at : ℕ
  pub metadata : Option Metadata

pub record Ride : Type 0 where
  pub id : ℕ
  pub passenger_user_id : ℕ
  pub status : RideStatus
  pub vehicle_category : VehicleCategory
  pub comfort_level : ComfortLevel
  pub is_review_account : Bool
  pub pickup_location : Option ℕ
  pub requested_at : Option ℕ
  pub matched_at : Option ℕ
  pub arrived_at : Option ℕ
  pub started_at : Option ℕ
  pub completed_at : Option ℕ
  pub cancelled_at : Option ℕ
  pub estimated_fare : Option ℤ
  pub final_fare : Option ℤ
  pub currency : String
  pub driver_payout_estimate : Option ℤ
  pub platform_commission : Option ℤ
  pub payment_method : PaymentMethod
  pub driver_id : Option ℕ
  pub vehicle_id : Option ℕ
  pub status_history : List RideStatusTransition

-- `InvalidStatusTransition` is raised before any write, so it carries no state.
pub data TransitionResult : Type 0 where
  moved : Ride → TransitionResult
  invalid_status_transition : (from_status to_status : RideStatus) → TransitionResult

-- `Ride.is_active`
unfoldable pub is_active : Ride → Bool
is_active r = is_active_status r.status

-- `if test and field is None: field = now`
abbrev pub stamp_first : Bool → Option ℕ → ℕ → Option ℕ
stamp_first test field now = if test && not (is_some field) then some now else field

-- the fare that completion fixes when none is fixed yet
abbrev pub settle_fare : Bool → Option ℤ → Option ℤ → Option ℤ
settle_fare test final estimated =
    if test && not (is_some final) && is_some estimated then estimated else final

-- The writes of an accepted move, once `allowed` has been checked.
unfoldable pub enter_status : Ride → RideStatus → ℕ → Option Metadata → Ride
enter_status r new_status now metadata =
    let is_cancellation =
      status_in new_status (cancelled_by_passenger ∷ cancelled_by_driver ∷ []) in
    let completes = status_eq new_status completed in
    record r {
      status = new_status;
      matched_at = stamp_first (status_eq new_status matched) r.matched_at now;
      arrived_at = stamp_first (status_eq new_status arrived) r.arrived_at now;
      started_at = stamp_first (status_eq new_status in_progress) r.started_at now;
      completed_at = stamp_first completes r.completed_at now;
      final_fare =
          settle_fare (completes && not (is_some r.completed_at)) r.final_fare r.estimated_fare;
      cancelled_at = stamp_first is_cancellation r.cancelled_at now;
      status_history =
          r.status_history
          ++ record {
            ride_id = r.id;
            from_status = some r.status;
            to_status = new_status;
            changed_at = now;
            metadata = metadata;
          }
            ∷ [];
    }

-- `Ride.transition`. `clock` is what `datetime.utcnow()` would return.
unfoldable pub transition : Ride → RideStatus → Option ℕ → ℕ → Option Metadata → TransitionResult
unfolding enter_status
transition r new_status when clock metadata =
    let allowed = allowed_transitions r.status in
    if status_eq new_status r.status
    then moved r
    else if not (status_in new_status allowed)
    then invalid_status_transition r.status new_status
    else moved (enter_status r new_status (or_else when clock) metadata)

-- The ride after a request to move it: as it was where the move is refused.
unfoldable pub attempt : Ride → RideStatus → ℕ → Ride
unfolding transition
attempt r new_status now = elim (transition r new_status (some now) now none) [
  | moved r' ↦ r'
  | invalid_status_transition _ _ ↦ r
]

-- A ride as it is created: `Ride(id=…, passenger_user_id=…)`, its other fields by default.
unfoldable pub new_ride : (id passenger_user_id : ℕ) → Ride
new_ride id passenger_user_id = record {
  id = id;
  passenger_user_id = passenger_user_id;
  status = requested;
  vehicle_category = VehicleCategory.standard;
  comfort_level = ComfortLevel.standard;
  is_review_account = false;
  pickup_location = none;
  requested_at = none;
  matched_at = none;
  arrived_at = none;
  started_at = none;
  completed_at = none;
  cancelled_at = none;
  estimated_fare = none;
  final_fare = none;
  currency = "XOF";
  driver_payout_estimate = none;
  platform_commission = none;
  payment_method = PaymentMethod.cash;
  driver_id = none;
  vehicle_id = none;
  status_history = [];
}
