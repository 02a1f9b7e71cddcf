-- ===== src/Trip/Extras.antt =====
-- `SqlAlchemyRideRepository` on the tables beside the rides: stops, supplements, ratings, batches
-- of route points and emergency events (app_base/modules/ride/infra/repositories.py).
use diddi_go_backend.Base.{
  ℕ, ◌+◌, ◌*◌, ◌/◌, Bool, true, false, not, ◌&&◌, Option, none, some, List, [], ◌∷◌, ◌++◌, String,
  if◌then◌else◌, ◌==◌, find, any, count, update, ltb, leb, str_eq, length,
}
use diddi_go_backend.Base.Transaction.{integrity_error, api_error, value_error, ok, err, Method}
use diddi_go_backend.Ride.Status.{completed, status_eq}
use diddi_go_backend.Trip.Entities.{
  TripDb, RideStop, RideSupplement, SupplementStatus, pending, accepted, disputed, RideRating,
  RaterRole, passenger, driver, RideRoutePoint, RideLocationBatch, RideEmergencyEvent,
}
use diddi_go_backend.Trip.Rides.{find_by_id}

unfoldable pub add_stop_row : RideStop → Method TripDb (Unit {0})
add_stop_row stop db =
    if any (λ s. s.id == stop.id) db.stops
    then (err integrity_error, db)
    else (ok tt, record db { stops = db.stops ++ stop ∷ [] })

unfoldable pub count_stops : ℕ → TripDb → ℕ
count_stops ride db = count (λ s. s.ride_id == ride) db.stops

abbrev pub is_supplement : ℕ → RideSupplement → Bool
is_supplement i s = s.id == i

-- the primary key and the constraint `amount > 0`
unfoldable pub add_supplement_row : RideSupplement → Method TripDb (Unit {0})
add_supplement_row supplement db =
    if any (is_supplement supplement.id) db.supplements
    then (err integrity_error, db)
    else if supplement.amount == 0
    then (err integrity_error, db)
    else (ok tt, record db { supplements = db.supplements ++ supplement ∷ [] })

unfoldable pub find_supplement_for_update :
    (ride_id supplement_id : ℕ) → TripDb → Option RideSupplement
find_supplement_for_update ride_id supplement_id db =
    find (λ s. is_supplement supplement_id s && (s.ride_id == ride_id)) db.supplements

unfoldable pub save_supplement : RideSupplement → Method TripDb (Unit {0})
save_supplement supplement db =
    if any (is_supplement supplement.id) db.supplements
    then (
      ok tt,
      record db {
        supplements =
            update (is_supplement supplement.id)
              (λ row. record row {
                status = supplement.status;
                decided_by_user_id = supplement.decided_by_user_id;
                decided_at = supplement.decided_at;
              })
              db.supplements;
      },
    )
    else (err value_error, db)

abbrev pub supplement_status_eq : SupplementStatus → SupplementStatus → Bool
supplement_status_eq pending pending = true
supplement_status_eq accepted accepted = true
supplement_status_eq disputed disputed = true
supplement_status_eq _ _ = false

abbrev pub counts_for : ℕ → RideSupplement → Bool
counts_for ride s = (s.ride_id == ride) && supplement_status_eq s.status accepted

-- the sum of the accepted supplements of a ride
abbrev pub sum_accepted : ℕ → List RideSupplement → ℕ
sum_accepted ride [] = 0
sum_accepted ride (s ∷ ss) =
    let rest = sum_accepted ride ss in if counts_for ride s then s.amount + rest else rest

unfoldable pub accepted_supplements_total : ℕ → TripDb → ℕ
accepted_supplements_total ride db = sum_accepted ride db.supplements

abbrev pub rater_eq : RaterRole → RaterRole → Bool
rater_eq passenger passenger = true
rater_eq driver driver = true
rater_eq _ _ = false

-- the rating of a ride by one of its two sides
abbrev pub is_rating : ℕ → RaterRole → RideRating → Bool
is_rating ride role r = (r.ride_id == ride) && rater_eq r.rater_role role

unfoldable pub has_rated : ℕ → RaterRole → TripDb → Bool
has_rated ride role db = ltb 0 (count (is_rating ride role) db.ratings)

-- the primary key, `rating BETWEEN 1 AND 5` and the constraint `ride_ratings_ride_rater_unique`,
-- of which the last is the one that the method answers
unfoldable pub save_rating : RideRating → Method TripDb (Unit {0})
save_rating rating db =
    if any (λ r. r.id == rating.id) db.ratings
    then (err integrity_error, db)
    else if not (leb 1 rating.rating && leb rating.rating 5)
    then (err integrity_error, db)
    else if any (is_rating rating.ride_id rating.rater_role) db.ratings
    then (err (api_error 409 "RATING_ALREADY_SUBMITTED"), db)
    else (ok tt, record db { ratings = db.ratings ++ rating ∷ [] })

-- the rows that `driver_rating_summary` joins: ratings by passengers of completed rides
abbrev pub rates_driver : ℕ → TripDb → RideRating → Bool
rates_driver driver_id db r = rater_eq r.rater_role passenger && elim (find_by_id r.ride_id db) [
  | some t ↦
      status_eq t.ride.status completed
      && elim t.ride.driver_id [ some d ↦ d == driver_id | none ↦ false ]
  | none ↦ false
]

abbrev pub sum_ratings : (RideRating → Bool) → List RideRating → ℕ
sum_ratings test [] = 0
sum_ratings test (r ∷ rs) =
    let rest = sum_ratings test rs in if test r then r.rating + rest else rest

-- `driver_rating_summary`, the average as the column NUMERIC(3, 2) rounds it, in hundredths; the
-- average of no row is null
unfoldable pub driver_rating_summary : ℕ → TripDb → ℕ × Option ℕ
driver_rating_summary driver_id db =
    let n = count (rates_driver driver_id db) db.ratings in
    let total = sum_ratings (rates_driver driver_id db) db.ratings in
    (n, if n == 0 then none else some ((200 * total + n) / (2 * n)))

abbrev pub is_batch : (ride batch : ℕ) → RideLocationBatch → Bool
is_batch ride batch b = (b.ride_id == ride) && (b.batch_id == batch)

-- `save_route_point_batch`: how many samples, whether the batch was known, and whether its
-- content differs. The insertion does nothing where `uq_ride_location_batch` has the batch.
unfoldable pub save_route_point_batch :
    (batch_id actor_user_id : ℕ) → String → List RideRoutePoint → Method TripDb (ℕ × (Bool × Bool))
save_route_point_batch batch_id actor payload_hash [] db = (ok (0, (false, false)), db)
save_route_point_batch batch_id actor payload_hash (p ∷ ps) db =
    elim (find (is_batch p.ride_id batch_id) db.batches) [
      | some b ↦ (ok (b.samples_count, (true, not (str_eq b.payload_hash payload_hash))), db)
      | none ↦ (
        ok (length (p ∷ ps), (false, false)),
        record db {
          batches =
              db.batches
              ++ record {
                ride_id = p.ride_id;
                batch_id = batch_id;
                actor_user_id = actor;
                samples_count = length (p ∷ ps);
                payload_hash = payload_hash;
              }
                ∷ [];
          route_points = db.route_points ++ p ∷ ps;
        },
      )
    ]

-- `list_route_points`, without its order: pricing only asks whether there is one
unfoldable pub route_points_of : ℕ → TripDb → Bool
route_points_of ride db = any (λ p. p.ride_id == ride) db.route_points

-- the later of two events by sequence
abbrev pub later_event : RideEmergencyEvent → Option RideEmergencyEvent → Option RideEmergencyEvent
later_event e none = some e
later_event e (some e') = if ltb e'.sequence e.sequence then some e else some e'

abbrev pub latest_of : ℕ → List RideEmergencyEvent → Option RideEmergencyEvent
latest_of ride [] = none
latest_of ride (e ∷ es) =
    let rest = latest_of ride es in if e.ride_id == ride then later_event e rest else rest

unfoldable pub latest_emergency_event : ℕ → TripDb → Option RideEmergencyEvent
latest_emergency_event ride db = latest_of ride db.emergencies

-- the primary key and the constraint `uq_ride_emergency_event_sequence`
unfoldable pub save_emergency_event : RideEmergencyEvent → Method TripDb (Unit {0})
save_emergency_event event db =
    if any (λ e. e.id == event.id) db.emergencies
    then (err integrity_error, db)
    else if any (λ e. (e.ride_id == event.ride_id) && (e.sequence == event.sequence)) db.emergencies
    then (err integrity_error, db)
    else (ok tt, record db { emergencies = db.emergencies ++ event ∷ [] })
