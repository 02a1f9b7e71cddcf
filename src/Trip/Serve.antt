-- ===== src/Trip/Serve.antt =====
-- The requests that change a ride, each one transaction, and what a sequence of them leaves:
-- `get_session` around the methods of `RideService`
-- (app_base/modules/ride/application/services.py).
use diddi_go_backend.Base.{ℕ, Bool, Option, List, [], ◌∷◌, String}
use diddi_go_backend.Base.Int.{ℤ}
use diddi_go_backend.Base.Transaction.{pure, run_request, ◌>>=◌}
use diddi_go_backend.Ride.Status.{RideStatus}
use diddi_go_backend.Trip.Entities.{TripDb, SupplementStatus}
use diddi_go_backend.Trip.Pricing.{TraceAnswers}
use diddi_go_backend.Trip.Access.{Settings, Externals, Sample, Actor, Flow}
use diddi_go_backend.Trip.Progress.{
  mark_arrived, start_ride_with_code, mark_passenger_no_show, start_waiting, stop_waiting,
}
use diddi_go_backend.Trip.Finish.{update_status, request_early_stop, confirm_early_stop, cancel}
use diddi_go_backend.Trip.During.{
  StopRequest, add_stop, add_supplement, decide_supplement, rate, add_location_samples,
  create_share_link, request_emergency,
}
use diddi_go_backend.Trip.Request.{RideRequest, request_ride}

-- A call of a use case, with the moments that it reads, what it draws, and what the services that
-- it calls answer.
pub data TripRequest : Type 0 where
  requests : (now : ℕ) → RideRequest → TripRequest
  updates : TraceAnswers → (now later ride : ℕ) → RideStatus → Actor → TripRequest
  asks_early_stop : (now ride user : ℕ) → TripRequest
  confirms_early_stop : TraceAnswers → (now later ride : ℕ) → Actor → TripRequest
  arrives : (now ride : ℕ) → Actor → Option ℕ → TripRequest
  starts : TraceAnswers → (now ride : ℕ) → Actor → String → TripRequest
  reports_no_show : (now later ride : ℕ) → Actor → TripRequest
  starts_waiting : (now ride : ℕ) → Actor → Option ℕ → TripRequest
  stops_waiting : (now ride : ℕ) → Actor → String → TripRequest
  adds_stop : (stop now ride : ℕ) → Actor → StopRequest → TripRequest
  adds_supplement :
      (supplement now ride : ℕ) → Actor → String → Option ℤ → Option String → TripRequest
  decides_supplement : (now ride supplement : ℕ) → Actor → SupplementStatus → TripRequest
  cancels : (now later ride : ℕ) → String → Actor → TripRequest
  rates : (rating_id ride rating : ℕ) → Option String → Actor → TripRequest
  sends_samples : (now ride : ℕ) → List Sample → (user batch : ℕ) → TripRequest
  shares : String → (now ride : ℕ) → Actor → TripRequest
  calls_emergency : (Bool → Bool) → (event now ride : ℕ) → Actor → Option String → TripRequest

-- a use case whose answer is left out
abbrev pub silent : {A : Type 0} → Flow A → Flow (Unit {0})
silent m = m >>= λ _. pure tt

module _ (cfg : Settings) (ext : Externals) where
  unfoldable pub handle : TripRequest → Flow (Unit {0})
  handle (requests now r) = silent (request_ride now r)
  handle (updates answers now later ride status actor) =
      silent (update_status cfg ext answers now later ride status actor)
  handle (asks_early_stop now ride user) = silent (request_early_stop cfg ext now ride user)
  handle (confirms_early_stop answers now later ride actor) =
      silent (confirm_early_stop cfg ext answers now later ride actor)
  handle (arrives now ride actor position) = silent (mark_arrived cfg ext now ride actor position)
  handle (starts answers now ride actor code) =
      silent (start_ride_with_code cfg ext answers now ride actor code)
  handle (reports_no_show now later ride actor) =
      silent (mark_passenger_no_show cfg ext now later ride actor)
  handle (starts_waiting now ride actor speed) = silent (start_waiting cfg ext now ride actor speed)
  handle (stops_waiting now ride actor reason) = silent (stop_waiting cfg ext now ride actor reason)
  handle (adds_stop stop now ride actor r) = silent (add_stop stop now ride actor r)
  handle (adds_supplement supplement now ride actor type amount label) =
      silent (add_supplement supplement now ride actor type amount label)
  handle (decides_supplement now ride supplement actor decision) =
      silent (decide_supplement now ride supplement actor decision)
  handle (cancels now later ride reason actor) = silent (cancel cfg ext now later ride reason actor)
  handle (rates rating_id ride rating comment actor) =
      silent (rate rating_id ride rating comment actor)
  handle (sends_samples now ride samples user batch) =
      silent (add_location_samples ext now ride samples user batch)
  handle (shares token now ride actor) = silent (create_share_link token now ride actor)
  handle (calls_emergency sent event now ride actor note) =
      silent (request_emergency cfg sent event now ride actor note)

  -- the tables after a sequence of requests
  unfoldable pub serve_all : List TripRequest → TripDb → TripDb
  serve_all [] db = db
  serve_all (r ∷ rs) db = serve_all rs (run_request (handle r) db).1
