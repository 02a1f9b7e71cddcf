-- ===== src/Trip/Pricing.antt =====
-- The pricing of a ride in app_base/modules/ride/application/services.py: `_pricing_breakdown`,
-- `_infer_price_per_km`, `_infer_price_per_min`, `_apply_actual_pricing_if_possible`,
-- `_ensure_map_trace_started`, and the fares that completion fixes. `Decimal` arithmetic is exact
-- here, on fractions; `round(float(x))` is a parameter. What the map service answers to the calls
-- of one request is a value of that request.
use diddi_go_backend.Base.{
  ℕ, ◌+◌, ◌*◌, max, min, Bool, false, not, ◌&&◌, Option, none, some, String, if◌then◌else◌, ◌==◌,
  ltb, str_eq, is_some, or_else,
}
use diddi_go_backend.Base.Int.{ℤ, pos, ◌+ℤ◌, ◌-ℤ◌, eqb_ℤ}
use diddi_go_backend.Base.Transaction.{api_error, Result, ok, err}
use diddi_go_backend.Ride.Status.{ComfortLevel, standard, comfort, premium}
use diddi_go_backend.Trip.Entities.{Trip, TraceSummary}
use diddi_go_backend.Trip.Money.{francs, commission}

pub record Fraction : Type 0 where
  pub num : ℕ
  pub den : ℕ

abbrev pub plus : Fraction → Fraction → Fraction
plus a b = record { num = a.num * b.den + b.num * a.den; den = a.den * b.den }

abbrev pub times : Fraction → Fraction → Fraction
times a b = record { num = a.num * b.num; den = a.den * b.den }

-- the quotient, of a divisor that is not zero
abbrev pub over : Fraction → Fraction → Fraction
over a b = record { num = a.num * b.den; den = a.den * b.num }

abbrev pub hundredths : ℕ → Fraction
hundredths n = record { num = n; den = 100 }

abbrev pub thousandths : ℕ → Fraction
thousandths n = record { num = n; den = 1000 }

abbrev pub minutes : (seconds : ℕ) → Fraction
minutes seconds = record { num = seconds; den = 60 }

-- `_DEFAULT_BASE_FARE`, `_DEFAULT_PRICE_PER_KM`, `_DEFAULT_PRICE_PER_MIN` and `_SURGE_CAP`
abbrev pub default_base_fare : ℕ
default_base_fare = francs 250

abbrev pub default_price_per_km : Fraction
default_price_per_km = record { num = 240; den = 1 }

abbrev pub default_price_per_min : Fraction
default_price_per_min = record { num = 0; den = 1 }

abbrev pub surge_cap : ℕ
surge_cap = 160

-- `_comfort_multiplier`, in hundredths
abbrev pub comfort_multiplier : ComfortLevel → ℕ
comfort_multiplier standard = 100
comfort_multiplier comfort = 115
comfort_multiplier premium = 130

-- `x or default` on an amount: zero counts as missing
abbrev pub or_default : Option ℕ → ℕ → ℕ
or_default none default = default
or_default (some n) default = if n == 0 then default else n

-- `a or b` on optional amounts
abbrev pub or_fare : Option ℤ → Option ℤ → Option ℤ
or_fare none b = b
or_fare (some a) b = if eqb_ℤ a (pos 0) then b else some a

unfoldable pub infer_price_per_km : Trip → Fraction
infer_price_per_km t = elim t.distance_fare [
  | some fare ↦ elim t.distance_km [
    | some km ↦ if ltb 0 km then over (hundredths fare) (thousandths km) else default_price_per_km
    | none ↦ default_price_per_km
  ]
  | none ↦ default_price_per_km
]

unfoldable pub infer_price_per_min : Trip → Fraction
infer_price_per_min t = elim t.duration_fare [
  | some fare ↦ elim t.duration_seconds [
    | some duration ↦
        if ltb 0 duration then over (hundredths fare) (minutes duration) else default_price_per_min
    | none ↦ default_price_per_min
  ]
  | none ↦ default_price_per_min
]

-- `total_fare` of `_pricing_breakdown`, before it is rounded, in francs
unfoldable pub total_fare :
    (distance_km : Fraction) (duration_seconds base_fare : ℕ)
    (price_per_km price_per_min : Fraction) (surge comfort_factor : ℕ)
    → Fraction
total_fare distance_km duration_seconds base_fare price_per_km price_per_min surge comfort_factor =
    times
      (times
        (plus (plus (hundredths base_fare) (times distance_km price_per_km))
          (times (minutes duration_seconds) price_per_min))
        (hundredths comfort_factor))
      (hundredths surge)

-- What the map service's analysis of a trace says.
pub record Analysis : Type 0 where
  pub summary : TraceSummary
  pub usable_for_scoring : Bool
  pub actual_distance_km : Option ℕ
  pub actual_duration_seconds : Option ℕ

-- What the map service answers to the calls of one request.
pub record TraceAnswers : Type 0 where
  pub start_trace : Result String
  pub append_trace_positions : Result (Unit {0})
  pub finish_trace : Result (Unit {0})
  pub analyze_trace : Result Analysis

-- a ride that a method changed in place, and how the method ended
abbrev pub Changed : Type 0
Changed = Result (Unit {0}) × Trip

abbrev pub and_then : Changed → (Trip → Changed) → Changed
and_then (ok _, t) f = f t
and_then (err e, t) f = (err e, t)

abbrev pub started : Result String → Trip → Changed
started (ok trace_id) t = (ok tt, record t { map_trace_id = some trace_id })
started (err e) t = (err e, t)

abbrev pub is_filled : Option String → Bool
is_filled none = false
is_filled (some s) = not (str_eq s "")

-- `_ensure_map_trace_started`
unfoldable pub ensure_map_trace_started : TraceAnswers → Trip → Changed
ensure_map_trace_started answers t =
    if is_filled t.map_trace_id
    then (ok tt, t)
    else if not (is_some t.ride.pickup_location && is_some t.dropoff_location)
    then (err (api_error 502 "DIDDIMAP_INVALID_RESPONSE"), t)
    else started answers.start_trace t

-- a call that answers without changing the ride
abbrev pub answered : Result (Unit {0}) → Trip → Changed
answered r t = (r, t)

module _ (round_float : Fraction → ℕ) where
  -- the fare of the distance and the duration that the trace measured
  unfoldable pub actual_fare : Trip → (distance_km duration_seconds : ℕ) → ℕ
  actual_fare t distance_km duration_seconds = francs (
      round_float (
        total_fare (thousandths distance_km) duration_seconds
          (or_default t.base_fare default_base_fare) (infer_price_per_km t) (infer_price_per_min t)
          (min t.surge_multiplier surge_cap) (comfort_multiplier t.ride.comfort_level)))

  abbrev pub applied : Trip → (distance_km duration_seconds : ℕ) → Trip
  applied t distance_km duration_seconds =
      let fare = actual_fare t distance_km duration_seconds in
      let locked_fare = or_fare t.ride.final_fare t.ride.estimated_fare in
      record t {
        ride = record t.ride {
          final_fare = elim locked_fare [ some locked ↦ some locked | none ↦ t.ride.final_fare ];
        };
        actual_distance_km = some distance_km;
        actual_duration_seconds = some duration_seconds;
        actual_pricing_fare = some fare;
        pricing_delta = elim locked_fare [ some locked ↦ some (pos fare -ℤ locked) | none ↦ none ];
        trace_analysis_status = some "applied";
        trace_analysis_error_code = none;
      }

  -- what follows the analysis
  abbrev pub priced : Result Analysis → Trip → Changed
  priced (err e) t = (err e, t)
  priced (ok a) t =
      let t' = record t { trace = a.summary } in
      if not a.usable_for_scoring
      then (
        ok tt,
        record t' { trace_analysis_status = some "ignored"; trace_analysis_error_code = none },
      )
      else elim a.actual_distance_km [
        | some km ↦ elim a.actual_duration_seconds [
          | some duration ↦ (ok tt, applied t' km duration)
          | none ↦ (err (api_error 502 "DIDDIMAP_INVALID_RESPONSE"), t')
        ]
        | none ↦ (err (api_error 502 "DIDDIMAP_INVALID_RESPONSE"), t')
      ]

  -- `_apply_actual_pricing_if_possible`, where `has_points` says that the ride has route points.
  -- It changes the ride in place, so what it wrote before it raises stays.
  unfoldable pub apply_actual_pricing : TraceAnswers → (has_points : Bool) → Trip → Changed
  apply_actual_pricing answers has_points t =
      if not has_points
      then (
        ok tt,
        record t { trace_analysis_status = some "no_samples"; trace_analysis_error_code = none },
      )
      else and_then (ensure_map_trace_started answers t) λ t1.
        if not (is_some t1.map_trace_id)
        then (err (api_error 502 "DIDDIMAP_INVALID_RESPONSE"), t1)
        else and_then (answered answers.append_trace_positions t1)
            λ t2. and_then (answered answers.finish_trace t2) λ t3. priced answers.analyze_trace t3

-- `pre_ride_wait_fee + waiting_fee + supplements_total`
abbrev pub extras : Trip → ℕ
extras t = t.pre_ride_wait_fee + t.waiting_fee + t.supplements_total

-- A ride with its final fare, of which the platform has its commission and the driver the rest.
unfoldable pub shared_fare : Trip → ℤ → Trip
shared_fare t fare = record t {
  ride = record t.ride {
    final_fare = some fare;
    platform_commission = some (commission fare t.commission_rate);
    driver_payout_estimate = some (fare -ℤ commission fare t.commission_rate);
  };
}

-- The fares that `update_status` fixes at completion.
unfoldable pub complete_fare : Trip → Trip
complete_fare t =
    let base = or_else (or_fare t.ride.final_fare t.ride.estimated_fare) (pos 0) in
    shared_fare t (base +ℤ pos (extras t))

-- The fares that `confirm_early_stop` fixes, from the fare of the trace.
unfoldable pub early_stop_fare : Trip → (actual : ℕ) → Trip
early_stop_fare t actual =
    shared_fare t (pos (max (or_default t.base_fare default_base_fare) actual + extras t))
