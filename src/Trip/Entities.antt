-- ===== src/Trip/Entities.antt =====
-- The rows that the ride use cases work on: the rest of the `Ride` entity, and the quotes, stops,
-- supplements, ratings, route points and emergency events of
-- app_base/modules/ride/domain/entities.py, with the tables of app_base/modules/ride/infra/models.py.
-- A moment is in microseconds; an amount is in hundredths of a franc; a rate of commission is in
-- ten-thousandths; a distance is in thousandths of a kilometre. A place, a speed, an accuracy and
-- a coordinate are only stored or handed on, so they are numbers.
use diddi_go_backend.Base.{ℕ, Bool, Option, List, String, ◌==◌}
use diddi_go_backend.Base.Int.{ℤ}
use diddi_go_backend.Ride.Status.{VehicleCategory, ComfortLevel}
use diddi_go_backend.Ride.Entity.{Ride, RideStatusTransition}

-- What the analysis of the trace of a ride left on it.
pub record TraceSummary : Type 0 where
  pub recommendation : Option String
  pub quality_label : Option String
  pub quality_score : Option ℕ
  pub points_count : Option ℕ
  pub usable_points_count : Option ℕ

-- A `Ride` with all that the use cases read or write: `ride` has the fields of the status machine.
pub record Trip : Type 0 where
  pub ride : Ride
  pub dropoff_location : Option ℕ
  pub pickup_address : Option String
  pub dropoff_address : Option String
  pub scheduled_at : Option ℕ
  pub distance_km : Option ℕ
  pub duration_seconds : Option ℕ
  pub base_fare : Option ℕ
  pub distance_fare : Option ℕ
  pub duration_fare : Option ℕ
  pub surge_multiplier : ℕ
  pub surge_cap : ℕ
  pub commission_rate : ℕ
  pub cancellation_reason : Option String
  pub completion_reason : Option String
  pub early_stop_requested_at : Option ℕ
  pub early_stop_expires_at : Option ℕ
  pub early_stop_requested_by_user_id : Option ℕ
  pub early_stop_confirmed_at : Option ℕ
  pub waiting_started_at : Option ℕ
  pub waiting_duration_seconds : ℕ
  pub waiting_fee : ℕ
  pub waiting_rate_per_minute : Option ℕ
  pub pre_ride_wait_started_at : Option ℕ
  pub pre_ride_wait_seconds : ℕ
  pub pre_ride_wait_fee : ℕ
  pub supplements_total : ℕ
  pub actual_distance_km : Option ℕ
  pub actual_duration_seconds : Option ℕ
  pub actual_pricing_fare : Option ℕ
  pub pricing_delta : Option ℤ
  pub map_trace_id : Option String
  pub trace_analysis_status : Option String
  pub trace_analysis_error_code : Option String
  pub trace : TraceSummary
  pub quote_id : Option ℕ
  pub start_code_hash : Option String
  pub start_code_attempts : ℕ
  pub start_code_blocked_at : Option ℕ
  pub start_code_used_at : Option ℕ
  pub share_token : Option String
  pub share_expires_at : Option ℕ
  pub emergency_requested_at : Option ℕ
  pub emergency_status : Option String
  pub emergency_note : Option String

pub record RideQuote : Type 0 where
  pub id : ℕ
  pub passenger_user_id : ℕ
  pub pickup_location : ℕ
  pub dropoff_location : ℕ
  pub vehicle_category : VehicleCategory
  pub comfort_level : ComfortLevel
  pub estimated_fare : ℤ
  pub distance_km : ℕ
  pub duration_seconds : ℕ
  pub base_fare : ℕ
  pub distance_fare : ℕ
  pub duration_fare : ℕ
  pub surge_multiplier : ℕ
  pub surge_cap : ℕ
  pub commission_rate : ℕ
  pub platform_commission : ℤ
  pub driver_payout_estimate : ℤ
  pub expires_at : ℕ
  pub pickup_address : Option String
  pub dropoff_address : Option String
  pub consumed_at : Option ℕ
  pub ride_id : Option ℕ

pub record RideStop : Type 0 where
  pub id : ℕ
  pub ride_id : ℕ
  pub sequence : ℕ
  pub latitude : ℕ
  pub longitude : ℕ
  pub address : Option String
  pub note : Option String
  pub created_at : ℕ

pub data SupplementStatus : Type 0 where
  pending accepted disputed : SupplementStatus

pub record RideSupplement : Type 0 where
  pub id : ℕ
  pub ride_id : ℕ
  pub amount : ℕ
  pub reason : String
  pub custom_label : Option String
  pub source : String
  pub status : SupplementStatus
  pub created_by_user_id : Option ℕ
  pub created_at : ℕ
  pub decided_by_user_id : Option ℕ
  pub decided_at : Option ℕ

-- `rater_role`, and the two roles that `_rating_role_for_actor` gives
pub data RaterRole : Type 0 where
  passenger driver : RaterRole

pub record RideRating : Type 0 where
  pub id : ℕ
  pub ride_id : ℕ
  pub rater_role : RaterRole
  pub rating : ℕ
  pub comment : Option String

pub record RideRoutePoint : Type 0 where
  pub ride_id : ℕ
  pub location : ℕ
  pub recorded_at : ℕ
  pub heading : Option ℕ
  pub speed_kmh : Option ℕ
  pub accuracy_m : Option ℕ
  pub source : String

pub record RideLocationBatch : Type 0 where
  pub ride_id : ℕ
  pub batch_id : ℕ
  pub actor_user_id : ℕ
  pub samples_count : ℕ
  pub payload_hash : String

pub record RideEmergencyEvent : Type 0 where
  pub id : ℕ
  pub ride_id : ℕ
  pub actor_user_id : ℕ
  pub actor_role : String
  pub requested_at : ℕ
  pub note : Option String
  pub sequence : ℕ
  pub contact_notified : Bool

-- The fields of `DriverProfile` that the use cases read or write.
pub record DriverProfile : Type 0 where
  pub id : ℕ
  pub user_id : ℕ
  pub rating_avg : ℕ
  pub rating_count : ℕ

pub data PriorityEventKind : Type 0 where
  ride_completed ride_cancelled_by_driver : PriorityEventKind

pub record PriorityEvent : Type 0 where
  pub driver_id : ℕ
  pub kind : PriorityEventKind
  pub points : ℤ
  pub ride_id : ℕ

-- The tables of the ride use cases.
pub record TripDb : Type 0 where
  pub rides : List Trip
  pub history : List RideStatusTransition
  pub quotes : List RideQuote
  pub stops : List RideStop
  pub supplements : List RideSupplement
  pub ratings : List RideRating
  pub batches : List RideLocationBatch
  pub route_points : List RideRoutePoint
  pub emergencies : List RideEmergencyEvent
  pub profiles : List DriverProfile
  pub priority_events : List PriorityEvent

-- a row by its primary key
abbrev pub has_id : ℕ → Trip → Bool
has_id i t = t.ride.id == i
