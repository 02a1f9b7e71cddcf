-- ===== src/Trip/Progress.antt =====
-- The course of a ride (app_base/modules/ride/application/services.py): `mark_arrived`,
-- `start_ride_with_code`, `mark_passenger_no_show`, `start_waiting`, `stop_waiting`. `now` is the
-- moment that a handler reads from the clock.
use diddi_go_backend.Base.{
  ℕ, suc, ◌+◌, ◌-◌, ◌*◌, ◌/◌, Bool, not, ◌||◌, Option, none, some, [], ◌∷◌, String, if◌then◌else◌,
  ltb, leb, str_eq, is_some, or_else,
}
use diddi_go_backend.Base.Transaction.{
  Error, api_error, Result, ok, err, pure, call, lift, raise, raise_if, commit, ◌>>=◌, ◌>>◌,
}
use diddi_go_backend.Ride.Status.{
  driver_en_route, arrived, in_progress, waiting, cancelled_by_driver, status_eq,
}
use diddi_go_backend.Trip.Entities.{Trip}
use diddi_go_backend.Trip.Rides.{save, record_last}
use diddi_go_backend.Trip.Money.{seconds, francs, waited_seconds, billed_minutes, pre_ride_fee}
use diddi_go_backend.Trip.Pricing.{TraceAnswers, Changed, ensure_map_trace_started, or_default}
use diddi_go_backend.Trip.Access.{
  Settings, Externals, Actor, Flow, expect, load_ride, require_driver, move,
}

-- `save` and `record_status_transition(ride.status_history[-1])`
unfoldable pub store_move : Trip → Flow Trip
store_move t = call (save t) >> record_last t.ride.status_history >> pure t

-- a change in place that raises when it does
abbrev pub changed : Changed → Result Trip
changed (ok _, t) = ok t
changed (err e, t) = err e

module _ (cfg : Settings) (ext : Externals) where
  -- `mark_arrived`, of a position `driver_position` that the location service has
  unfoldable pub mark_arrived : (now ride_id : ℕ) → Actor → Option ℕ → Flow Trip
  mark_arrived now ride_id actor driver_position = load_ride ride_id >>= λ t.
      require_driver t actor
      >> (if status_eq t.ride.status arrived
          then pure t
          else (raise_if (not (status_eq t.ride.status driver_en_route))
                (api_error 409 "ARRIVAL_INVALID_RIDE_STATUS")
              >> lift (expect (api_error 422 "DRIVER_LOCATION_REQUIRED") driver_position)
              >>= λ position.
                  lift (expect (api_error 422 "DRIVER_LOCATION_REQUIRED") t.ride.pickup_location)
                  >>= λ pickup.
                      raise_if
                        (ext.farther_than position pickup cfg.driver_arrival_max_distance_meters)
                        (api_error 422 "DRIVER_TOO_FAR_FROM_PICKUP")
                      >> lift (
                          move
                            (record t {
                              start_code_hash =
                                  some
                                    (ext.hash_start_code t.ride.id (ext.ride_start_code t.ride.id));
                              pre_ride_wait_started_at = some now;
                            })
                            arrived (some now) now
                            (some (("distance_meters", ext.distance_text position pickup) ∷ [])))
                      >>= store_move))

  -- one more wrong code, and the block when they are too many
  unfoldable pub count_attempt : (now : ℕ) → Trip → Trip
  count_attempt now t =
      let attempts = suc t.start_code_attempts in
      record t {
        start_code_attempts = attempts;
        start_code_blocked_at =
            if leb cfg.ride_start_code_max_attempts attempts
            then some now
            else t.start_code_blocked_at;
      }

  -- the error for a wrong code
  abbrev pub wrong_code_error : Trip → Error
  wrong_code_error t =
      if is_some t.start_code_blocked_at
      then api_error 423 "RIDE_START_CODE_BLOCKED"
      else api_error 422 "INVALID_RIDE_START_CODE"

  -- the answer to a wrong code: the count is committed before the error
  unfoldable pub refuse_code : (now : ℕ) → Trip → Flow Trip
  refuse_code now t =
      let counted = count_attempt now t in
      call (save counted) >> commit >> raise (wrong_code_error counted)

  -- the ride as the right code changes it, before the move
  unfoldable pub bill_pre_ride : (now : ℕ) → Trip → Trip
  bill_pre_ride now t =
      let elapsed = (now - or_else t.pre_ride_wait_started_at now) / seconds 1 in
      record t {
        pre_ride_wait_seconds = elapsed;
        pre_ride_wait_fee =
            pre_ride_fee cfg.pre_ride_wait_price_per_minute_xof elapsed
              cfg.pre_ride_wait_free_seconds;
        start_code_used_at = some now;
      }

  unfoldable pub accept_code : TraceAnswers → (now : ℕ) → Trip → Flow Trip
  accept_code answers now t =
      lift (
        move (bill_pre_ride now t) in_progress (some now) now
          (some (("start_code_verified", "true") ∷ [])))
      >>= λ t1. lift (changed (ensure_map_trace_started answers t1)) >>= store_move

  -- `hmac.compare_digest(expected_hash, _hash_start_code(ride.id, code))`
  abbrev pub is_right_code : Trip → String → Bool
  is_right_code t code = str_eq (or_else t.start_code_hash "") (ext.hash_start_code t.ride.id code)

  -- `start_ride_with_code`
  unfoldable pub start_ride_with_code :
      TraceAnswers → (now ride_id : ℕ) → Actor → (code : String) → Flow Trip
  start_ride_with_code answers now ride_id actor code = load_ride ride_id >>= λ t.
      require_driver t actor
      >> raise_if (not (status_eq t.ride.status arrived))
          (api_error 409 "RIDE_START_INVALID_STATUS")
      >> raise_if (is_some t.start_code_used_at) (api_error 409 "RIDE_START_CODE_ALREADY_USED")
      >> raise_if (is_some t.start_code_blocked_at) (api_error 423 "RIDE_START_CODE_BLOCKED")
      >> (if is_right_code t code then accept_code answers now t else refuse_code now t)

  -- `mark_passenger_no_show`: it reads the clock twice
  unfoldable pub mark_passenger_no_show : (now later ride_id : ℕ) → Actor → Flow Trip
  mark_passenger_no_show now later ride_id actor = load_ride ride_id >>= λ t.
      require_driver t actor
      >> raise_if (not (status_eq t.ride.status arrived))
          (api_error 409 "NO_SHOW_INVALID_RIDE_STATUS")
      >> lift (expect (api_error 409 "NO_SHOW_INVALID_RIDE_STATUS") t.pre_ride_wait_started_at)
      >>= λ started.
          (let elapsed = (now - started) / seconds 1 in
            raise_if (leb (now + seconds 1) started || ltb elapsed cfg.pre_ride_no_show_seconds)
              (api_error 409 "NO_SHOW_TOO_EARLY")
            >> lift (
                move
                  (record t {
                    pre_ride_wait_seconds = elapsed;
                    pre_ride_wait_fee = 0;
                    cancellation_reason = some "passenger_no_show";
                  })
                  cancelled_by_driver (some later) later
                  (some (("reason", "passenger_no_show") ∷ [])))
            >>= store_move)

  -- `start_waiting`, with `_persist_waiting_change`
  unfoldable pub start_waiting : (now ride_id : ℕ) → Actor → (speed_kmh : Option ℕ) → Flow Trip
  start_waiting now ride_id actor speed_kmh = load_ride ride_id >>= λ t.
      require_driver t actor
      >> (if status_eq t.ride.status waiting
          then pure t
          else (raise_if (not (status_eq t.ride.status in_progress))
                (api_error 409 "WAITING_INVALID_RIDE_STATUS")
              >> lift (expect (api_error 409 "WAITING_TELEMETRY_REQUIRED") speed_kmh)
              >>= λ speed.
                  raise_if (ltb cfg.waiting_stationary_speed_threshold_kmh speed)
                    (api_error 409 "VEHICLE_NOT_STOPPED")
                  >> lift (
                      move
                        (record t {
                          waiting_started_at = some now;
                          waiting_rate_per_minute = some (francs cfg.waiting_price_per_minute_xof);
                        })
                        waiting (some now) now (some (("reason", "manual") ∷ [])))
                  >>= λ t1. call (save t1) >> pure t1))

  -- a ride whose wait is billed, before the move
  unfoldable pub bill_wait : (started now : ℕ) → Trip → Trip
  bill_wait started now t =
      let elapsed = waited_seconds started now in
      let rate = or_default t.waiting_rate_per_minute (francs cfg.waiting_price_per_minute_xof) in
      record t {
        waiting_duration_seconds = t.waiting_duration_seconds + elapsed;
        waiting_fee = t.waiting_fee + rate * billed_minutes elapsed;
        waiting_started_at = none;
      }

  -- `_stop_waiting`
  unfoldable pub finish_waiting : (now : ℕ) → Trip → (reason : String) → Flow Trip
  finish_waiting now t reason =
      raise_if (not (status_eq t.ride.status waiting)) (api_error 409 "WAITING_NOT_ACTIVE")
      >> lift (expect (api_error 409 "WAITING_NOT_ACTIVE") t.waiting_started_at)
      >>= λ started.
          lift (
            move (bill_wait started now t) in_progress (some now) now (
              some (
                ("reason", reason)
                ∷ ("duration_seconds", ext.text (waited_seconds started now))
                ∷ ("billed_minutes", ext.text (billed_minutes (waited_seconds started now)))
                ∷ [])))
          >>= λ t1. call (save t1) >> pure t1

  -- `stop_waiting`
  unfoldable pub stop_waiting : (now ride_id : ℕ) → Actor → (reason : String) → Flow Trip
  stop_waiting now ride_id actor reason =
      load_ride ride_id >>= λ t. require_driver t actor >> finish_waiting now t reason
