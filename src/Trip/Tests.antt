-- ===== src/Trip/Tests.antt =====
-- A ride from its request on, and the theorems on the ride use cases at it.
use diddi_go_backend.Base.{
  ℕ, ◌≡◌, ◌≤◌, ◌<◌, ◌+◌, ◌-◌, ◌*◌, ◌⊎◌, refl, not, Bool, true, false, none, some, List, [], ◌∷◌,
  String, arith, ltb, str_eq,
}
use diddi_go_backend.Base.Int.{pos}
use diddi_go_backend.Base.Transaction.{ok, err, api_error}
use diddi_go_backend.Ride.Status.{
  arrived, matched, driver_en_route, VehicleCategory, ComfortLevel, PaymentMethod,
}
use diddi_go_backend.Ride.Entity.{new_ride}
use diddi_go_backend.Trip.Entities.{Trip, TripDb, RideQuote, RideRoutePoint, DriverProfile}
use diddi_go_backend.Trip.Extras.{save_route_point_batch}
use diddi_go_backend.Trip.Money.{
  seconds, francs, waited_seconds, billed_minutes, supplement_amount, other_supplement,
}
use diddi_go_backend.Trip.Pricing.{Fraction, TraceAnswers, complete_fare}
use diddi_go_backend.Trip.Access.{Settings, Externals, Actor, Sample, is_assigned_driver}
use diddi_go_backend.Trip.Request.{RideRequest, ride_of_quote}
use diddi_go_backend.Trip.Serve.{TripRequest, requests, updates, arrives, cancels, rates, serve_all}
use diddi_go_backend.Trip.Sound.{Sound}
use diddi_go_backend.Trip.Served.{serve_all-Sound}
use diddi_go_backend.Trip.Codes.{guess, guess_all, wrong_codes_block}
use diddi_go_backend.Trip.Amounts.{IsShared, completed_shares, billed_wait, supplement_bounds}
use diddi_go_backend.Trip.Batches.{resent_batch}

abbrev settings : Settings
settings = record {
  driver_arrival_max_distance_meters = 50;
  pre_ride_wait_free_seconds = 180;
  pre_ride_wait_price_per_minute_xof = 100;
  pre_ride_no_show_seconds = 600;
  ride_start_code_max_attempts = 2;
  ride_emergency_rate_limit_seconds = 60;
  ride_emergency_contact_notify_once = true;
  waiting_price_per_minute_xof = 100;
  waiting_stationary_speed_threshold_kmh = 3;
  points_ride_completed = pos 10;
  points_ride_cancelled_by_driver = pos 0;
}

-- Stand-ins that a test can compute.
abbrev same_text : ℕ → String → String
same_text i s = s

abbrev any_code : ℕ → String
any_code i = "123456"

abbrev one_hash : List Sample → String
one_hash l = "hash"

abbrev near : ℕ → ℕ → ℕ → Bool
near a b limit = ltb limit (a - b)

abbrev no_text : ℕ → ℕ → String
no_text a b = ""

abbrev numerator : Fraction → ℕ
numerator f = f.num

abbrev digits : ℕ → String
digits n = ""

abbrev ext : Externals
ext = record {
  ride_start_code = any_code;
  hash_start_code = same_text;
  payload_hash = one_hash;
  farther_than = near;
  distance_text = no_text;
  round_float = numerator;
  text = digits;
}

abbrev quote : RideQuote
quote = record {
  id = 1;
  passenger_user_id = 5;
  pickup_location = 100;
  dropoff_location = 200;
  vehicle_category = VehicleCategory.standard;
  comfort_level = ComfortLevel.standard;
  estimated_fare = pos 150000;
  distance_km = 5000;
  duration_seconds = 900;
  base_fare = 25000;
  distance_fare = 120000;
  duration_fare = 0;
  surge_multiplier = 100;
  surge_cap = 160;
  commission_rate = 1800;
  platform_commission = pos 27000;
  driver_payout_estimate = pos 123000;
  expires_at = 1000;
  pickup_address = none;
  dropoff_address = none;
  consumed_at = none;
  ride_id = none;
}

abbrev asked : RideRequest
asked = record {
  ride_id = 9;
  passenger_user_id = 5;
  is_review_account = false;
  quote_id = 1;
  payment_method = PaymentMethod.cash;
  scheduled_at = none;
}

abbrev driver_user : Actor
driver_user = record { user_id = 7; role = "driver" }

abbrev passenger_user : Actor
passenger_user = record { user_id = 5; role = "passenger" }

abbrev admin : Actor
admin = record { user_id = 8; role = "admin" }

abbrev profile : DriverProfile
profile = record { id = 70; user_id = 7; rating_avg = 500; rating_count = 0 }

abbrev no_trace : TraceAnswers
no_trace = record {
  start_trace = ok "trace";
  append_trace_positions = ok tt;
  finish_trace = ok tt;
  analyze_trace = err (api_error 502 "DIDDIMAP_UNAVAILABLE");
}

abbrev empty : TripDb
empty = record {
  rides = [];
  history = [];
  quotes = quote ∷ [];
  stops = [];
  supplements = [];
  ratings = [];
  batches = [];
  route_points = [];
  emergencies = [];
  profiles = profile ∷ [];
  priority_events = [];
}

empty-Sound : Sound empty
empty-Sound = record {
  paid = tt;
  single = λ p. omega arith;
  in_range = tt;
  once = λ ride role. omega arith;
}

-- A passenger asks twice, and the ride is taken as far as its arrival and cancelled.
abbrev day : List TripRequest
day =
    requests 10 asked
    ∷ requests 11 asked
    ∷ updates no_trace 20 20 9 matched admin
    ∷ updates no_trace 30 30 9 driver_en_route admin
    ∷ arrives 40 9 admin (some 100)
    ∷ cancels 50 50 9 "other" passenger_user
    ∷ rates 1 9 5 none passenger_user
    ∷ []

serve_all-Sound_example : Sound (serve_all settings ext day empty)
serve_all-Sound_example = serve_all-Sound settings ext day empty empty-Sound

-- A ride whose driver has arrived, with its start code.
abbrev at_pickup : Trip
at_pickup =
    let t = ride_of_quote 10 asked quote in
    record t {
      ride = record t.ride { status = arrived; driver_id = some 70 };
      start_code_hash = some "123456";
    }

abbrev street : TripDb
street = record empty { rides = at_pickup ∷ [] }

abbrev wrong_guesses : List (ℕ × (TraceAnswers × String))
wrong_guesses = (60, (no_trace, "000000")) ∷ (70, (no_trace, "111111")) ∷ []

wrong_codes_block_example :
    guess settings ext 9 driver_user
      (80, (no_trace, "123456"))
      (guess_all settings ext 9 driver_user wrong_guesses street)
    ≡ (
      err (api_error 423 "RIDE_START_CODE_BLOCKED"),
      guess_all settings ext 9 driver_user wrong_guesses street,
    )
unfolding ride_of_quote new_ride is_assigned_driver
wrong_codes_block_example =
    wrong_codes_block settings ext 9 driver_user wrong_guesses at_pickup street
      (80, (no_trace, "123456"))
      (record { found = refl; here = refl; unused = refl; allowed = refl; placed = refl }) refl
      (refl, (refl, tt)) (omega arith) (omega arith)

-- A completed ride of 2,450 francs with a wait of 100 francs, at 18 %.
abbrev driven : Trip
driven =
    let t = ride_of_quote 10 asked quote in
    record t {
      ride = record t.ride { final_fare = some (pos 245000) };
      waiting_fee = 10000;
      commission_rate = 1800;
    }

completed_shares_example : IsShared driven 245000 (complete_fare driven).ride
completed_shares_example = completed_shares driven 245000 refl

billed_wait_example :
    let billed = billed_minutes (waited_seconds 1000000 62500000) in
    (1 ≤ billed)
    × ((62500000 - 1000000 ≤ seconds 60 * billed)
        × ((billed ≡ 1) ⊎ (seconds 60 * billed < 62500000 - 1000000 + seconds 60)))
billed_wait_example = billed_wait 1000000 62500000 (omega arith)

supplement_bounds_example : (1 ≤ 75000) × (75000 ≤ francs 1000)
unfolding supplement_amount other_supplement
supplement_bounds_example = supplement_bounds "other" (some (pos 75000)) 75000 refl

abbrev point : ℕ → RideRoutePoint
point place = record {
  ride_id = 9;
  location = place;
  recorded_at = 60;
  heading = none;
  speed_kmh = none;
  accuracy_m = none;
  source = "driver";
}

resent_batch_example :
    let stored = (save_route_point_batch 3 7 "a" (point 1 ∷ point 2 ∷ []) street).1 in
    save_route_point_batch 3 7 "b" (point 4 ∷ []) stored
    ≡ (ok (2, (true, not (str_eq "a" "b"))), stored)
resent_batch_example =
    resent_batch 3 7 7 "a" "b" (point 1) (point 4) (point 2 ∷ []) [] street refl refl
