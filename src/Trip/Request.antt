-- ===== src/Trip/Request.antt =====
-- `request_ride` of app_base/modules/ride/application/services.py, the requests of the ride use
-- cases, and what any sequence of them leaves.
use diddi_go_backend.Base.{ℕ, Bool, not, Option, none, some, leb, ◌==◌, is_some}
use diddi_go_backend.Base.Transaction.{api_error, pure, call, ask, lift, raise_if, ◌>>=◌, ◌>>◌}
use diddi_go_backend.Ride.Status.{requested, PaymentMethod}
use diddi_go_backend.Ride.Entity.{new_ride}
use diddi_go_backend.Trip.Entities.{Trip, RideQuote}
use diddi_go_backend.Trip.Rides.{save, has_active_ride, find_quote, consume, record_transitions}
use diddi_go_backend.Trip.Access.{Flow, expect}

-- The arguments of `request_ride`, with the identifier that `Ride.new_id` draws.
pub record RideRequest : Type 0 where
  pub ride_id : ℕ
  pub passenger_user_id : ℕ
  pub is_review_account : Bool
  pub quote_id : ℕ
  pub payment_method : PaymentMethod
  pub scheduled_at : Option ℕ

-- The ride that a quote becomes.
unfoldable pub ride_of_quote : (now : ℕ) → RideRequest → RideQuote → Trip
ride_of_quote now r q = record {
  ride = record (new_ride r.ride_id r.passenger_user_id) {
    status = requested;
    vehicle_category = q.vehicle_category;
    comfort_level = q.comfort_level;
    is_review_account = r.is_review_account;
    pickup_location = some q.pickup_location;
    estimated_fare = some q.estimated_fare;
    currency = "XOF";
    platform_commission = some q.platform_commission;
    driver_payout_estimate = some q.driver_payout_estimate;
    payment_method = r.payment_method;
    requested_at = some now;
  };
  dropoff_location = some q.dropoff_location;
  pickup_address = q.pickup_address;
  dropoff_address = q.dropoff_address;
  scheduled_at = r.scheduled_at;
  distance_km = some q.distance_km;
  duration_seconds = some q.duration_seconds;
  base_fare = some q.base_fare;
  distance_fare = some q.distance_fare;
  duration_fare = some q.duration_fare;
  surge_multiplier = q.surge_multiplier;
  surge_cap = q.surge_cap;
  commission_rate = q.commission_rate;
  cancellation_reason = none;
  completion_reason = none;
  early_stop_requested_at = none;
  early_stop_expires_at = none;
  early_stop_requested_by_user_id = none;
  early_stop_confirmed_at = none;
  waiting_started_at = none;
  waiting_duration_seconds = 0;
  waiting_fee = 0;
  waiting_rate_per_minute = none;
  pre_ride_wait_started_at = none;
  pre_ride_wait_seconds = 0;
  pre_ride_wait_fee = 0;
  supplements_total = 0;
  actual_distance_km = none;
  actual_duration_seconds = none;
  actual_pricing_fare = none;
  pricing_delta = none;
  map_trace_id = none;
  trace_analysis_status = none;
  trace_analysis_error_code = none;
  trace = record {
    recommendation = none;
    quality_label = none;
    quality_score = none;
    points_count = none;
    usable_points_count = none;
  };
  quote_id = some q.id;
  start_code_hash = none;
  start_code_attempts = 0;
  start_code_blocked_at = none;
  start_code_used_at = none;
  share_token = none;
  share_expires_at = none;
  emergency_requested_at = none;
  emergency_status = none;
  emergency_note = none;
}

-- the new ride is saved and its quote consumed
unfoldable pub create_ride : (now : ℕ) → RideRequest → RideQuote → Flow Trip
create_ride now r q =
    let t = ride_of_quote now r q in
    call (save t)
    >> call (consume q t.ride.id now)
    >> record_transitions t.ride.status_history
    >> pure t

-- `request_ride`
unfoldable pub request_ride : (now : ℕ) → RideRequest → Flow Trip
request_ride now r = ask (find_quote r.quote_id) >>= λ found.
    lift (expect (api_error 404 "QUOTE_NOT_FOUND") found) >>= λ q.
    raise_if (not (q.passenger_user_id == r.passenger_user_id)) (api_error 404 "QUOTE_NOT_FOUND")
    >> raise_if (is_some q.consumed_at) (api_error 409 "QUOTE_ALREADY_USED")
    >> raise_if (leb q.expires_at now) (api_error 409 "QUOTE_EXPIRED")
    >> ask (has_active_ride r.passenger_user_id)
    >>= λ live. raise_if live (api_error 409 "ACTIVE_RIDE_ALREADY_EXISTS") >> create_ride now r q
