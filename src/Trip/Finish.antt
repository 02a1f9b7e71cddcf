-- ===== src/Trip/Finish.antt =====
-- The end of a ride (app_base/modules/ride/application/services.py): `update_status`,
-- `request_early_stop`, `confirm_early_stop` and `cancel`. Each `datetime.now` of a handler is an
-- argument of its own.
use diddi_go_backend.Base.{
  ℕ, ◌+◌, Bool, false, not, ◌||◌, ◌&&◌, none, some, [], ◌∷◌, String, if◌then◌else◌, leb, ◌==◌,
  str_eq, is_some,
}
use diddi_go_backend.Base.Transaction.{
  Error, api_error, invalid_status_transition, Result, ok, err, pure, call, ask, lift, raise_if,
  rethrow, ◌>>=◌, ◌>>◌,
}
use diddi_go_backend.Ride.Status.{
  RideStatus, in_progress, waiting, completed, cancelled_by_driver, cancelled_by_passenger,
  no_driver_found, status_eq, status_in,
}
use diddi_go_backend.Trip.Entities.{Trip}
use diddi_go_backend.Trip.Rides.{save, record_transitions}
use diddi_go_backend.Trip.Extras.{route_points_of}
use diddi_go_backend.Trip.Money.{seconds}
use diddi_go_backend.Trip.Pricing.{
  TraceAnswers, Changed, apply_actual_pricing, complete_fare, early_stop_fare, is_filled,
}
use diddi_go_backend.Trip.Access.{
  Settings, Externals, Actor, Flow, expect, load_ride, is_admin, is_assigned_driver, require_driver,
  not_owned, is_under_way, move, record_ride_outcome,
}
use diddi_go_backend.Trip.Progress.{changed, stop_waiting, finish_waiting}

-- `except InvalidStatusTransition`: the 409 of the handler
abbrev pub refused_move : Error → Error
refused_move invalid_status_transition = api_error 409 "INVALID_STATUS_TRANSITION"
refused_move e = e

-- `except ApiError`: the ride is completed at its locked fare
abbrev pub or_locked_fare : Changed → Result Trip
or_locked_fare (ok _, t) = ok t
or_locked_fare (err (api_error status code), t) = ok (record t {
  trace_analysis_status = some "provider_error";
  trace_analysis_error_code = some code;
})
or_locked_fare (err e, t) = err e

-- `save`, the recorded transitions and the priority of the driver
unfoldable pub store_outcome : Settings → Trip → Flow Trip
store_outcome cfg t =
    call (save t) >> record_transitions t.ride.status_history >> record_ride_outcome cfg t >> pure t

module _ (cfg : Settings) (ext : Externals) where
  -- a completed ride, with its fares
  unfoldable pub completed_trip : Trip → Trip
  completed_trip t = complete_fare record t {
    completion_reason =
        if is_filled t.completion_reason then t.completion_reason else some "destination_reached";
  }

  -- what `update_status` does once the ride is neither waiting nor completed
  unfoldable pub complete : TraceAnswers → (now ride_id : ℕ) → Trip → Flow Trip
  complete answers now ride_id t = ask (route_points_of t.ride.id) >>= λ has_points.
      lift (or_locked_fare (apply_actual_pricing ext.round_float answers has_points t)) >>= λ t1.
      rethrow (lift (move t1 completed none now none)) refused_move >>= λ t2.
      store_outcome cfg (completed_trip t2)

  -- any other status than `in_progress` and `completed`
  unfoldable pub change_status : (now : ℕ) → Trip → RideStatus → Flow Trip
  change_status now t new_status =
      rethrow (lift (move t new_status none now none)) refused_move >>= store_outcome cfg

  -- the ride that is waiting stops waiting first, and is loaded again
  unfoldable pub resume_and_complete : TraceAnswers → (now later ride_id : ℕ) → Actor → Flow Trip
  resume_and_complete answers now later ride_id actor =
      stop_waiting cfg ext now ride_id actor "ride_completed" >>= λ _.
      load_ride ride_id >>= complete answers later ride_id

  -- `update_status`
  unfoldable pub update_status :
      TraceAnswers → (now later ride_id : ℕ) → RideStatus → Actor → Flow Trip
  update_status answers now later ride_id new_status actor = load_ride ride_id >>= λ t.
      require_driver t actor
      >> (if status_eq new_status completed
          then (if status_eq t.ride.status completed
              then pure t
              else if status_eq t.ride.status waiting
              then resume_and_complete answers now later ride_id actor
              else complete answers later ride_id t)
          else (raise_if (status_eq t.ride.status waiting && status_eq new_status in_progress)
                (api_error 409 "WAITING_STOP_ENDPOINT_REQUIRED")
              >> raise_if (status_eq new_status in_progress)
                  (api_error 409 "RIDE_START_CODE_REQUIRED")
              >> change_status later t new_status))

  -- `request_early_stop`; the provisional amount that it answers changes nothing
  unfoldable pub request_early_stop : (now ride_id passenger_user_id : ℕ) → Flow Trip
  request_early_stop now ride_id passenger_user_id = load_ride ride_id >>= λ t.
      raise_if (not (t.ride.passenger_user_id == passenger_user_id)) not_owned
      >> raise_if (not (is_under_way t)) (api_error 409 "EARLY_STOP_INVALID_RIDE_STATUS")
      >> (let t1 = record t {
        early_stop_requested_at = some now;
        early_stop_expires_at = some (now + seconds 120);
        early_stop_requested_by_user_id = some passenger_user_id;
      } in
          call (save t1) >> pure t1)

  -- the ride of which an early stop is confirmed, once it no longer waits
  unfoldable pub stop_early : TraceAnswers → (now : ℕ) → Trip → Flow Trip
  stop_early answers now t = ask (route_points_of t.ride.id) >>= λ has_points.
      lift (changed (apply_actual_pricing ext.round_float answers has_points t)) >>= λ t1.
      raise_if (not (elim t1.trace_analysis_status [ some s ↦ str_eq s "applied" | none ↦ false ]))
        (api_error 503 "EARLY_STOP_PRICING_UNAVAILABLE")
      >> lift (expect (api_error 503 "EARLY_STOP_PRICING_UNAVAILABLE") t1.actual_pricing_fare)
      >>= λ actual.
          lift (
            move
              (record (early_stop_fare t1 actual) {
                completion_reason = some "early_stop";
                early_stop_confirmed_at = some now;
              })
              completed (some now) now (some (("completion_reason", "early_stop") ∷ [])))
          >>= store_outcome cfg

  -- `confirm_early_stop`
  unfoldable pub confirm_early_stop : TraceAnswers → (now later ride_id : ℕ) → Actor → Flow Trip
  confirm_early_stop answers now later ride_id actor = load_ride ride_id >>= λ t.
      require_driver t actor
      >> raise_if (not (is_under_way t)) (api_error 409 "EARLY_STOP_INVALID_RIDE_STATUS")
      >> raise_if (not (is_some t.early_stop_requested_at))
          (api_error 409 "EARLY_STOP_NOT_REQUESTED")
      >> lift (expect (api_error 409 "EARLY_STOP_NOT_REQUESTED") t.early_stop_expires_at)
      >>= λ expires.
          raise_if (leb expires now) (api_error 409 "EARLY_STOP_REQUEST_EXPIRED")
          >> (if status_eq t.ride.status waiting
              then (stop_waiting cfg ext later ride_id actor "early_stop" >>= λ _.
                  load_ride ride_id >>= stop_early answers now)
              else stop_early answers now t)

  -- `VALID_CANCEL_REASONS`
  abbrev pub is_cancel_reason : String → Bool
  is_cancel_reason reason =
      str_eq reason "passenger_changed_mind"
      || str_eq reason "passenger_no_show"
      || str_eq reason "driver_unavailable"
      || str_eq reason "found_alternative"
      || str_eq reason "other"

  -- the status of a cancelled ride
  abbrev pub cancelled_status : (reason : String) → (is_driver is_admin : Bool) → RideStatus
  cancelled_status reason is_driver by_admin =
      if str_eq reason "driver_unavailable" || (is_driver && not by_admin)
      then cancelled_by_driver
      else cancelled_by_passenger

  -- what `cancel` does once the ride does not wait; the transitions are not recorded
  unfoldable pub close : (later : ℕ) → RideStatus → (reason : String) → Trip → Flow Trip
  close later new_status reason t =
      lift (move t new_status none later (some (("reason", reason) ∷ []))) >>= λ t1.
      (let t2 = record t1 { cancellation_reason = some reason } in
        call (save t2) >> record_ride_outcome cfg t2 >> pure t2)

  -- `cancel`
  unfoldable pub cancel : (now later ride_id : ℕ) → (reason : String) → Actor → Flow Trip
  cancel now later ride_id reason actor =
      raise_if (not (is_cancel_reason reason)) (api_error 422 "INVALID_CANCEL_REASON")
      >> load_ride ride_id
      >>= λ t. ask (is_assigned_driver t actor.user_id) >>= λ is_driver.
          (let new_status = cancelled_status reason is_driver (is_admin actor) in
            raise_if
              (not (is_admin actor || ((t.ride.passenger_user_id == actor.user_id) || is_driver)))
              not_owned
            >> raise_if (status_eq t.ride.status completed) (api_error 409 "RIDE_ALREADY_COMPLETED")
            >> raise_if
                (status_in t.ride.status (cancelled_by_passenger ∷ cancelled_by_driver ∷ []))
                (api_error 409 "RIDE_ALREADY_CANCELLED")
            >> raise_if (status_eq t.ride.status no_driver_found)
                (api_error 409 "RIDE_NOT_CANCELLABLE")
            >> (if status_eq t.ride.status waiting
                then finish_waiting cfg ext now t "ride_cancelled" >>= close later new_status reason
                else close later new_status reason t))
