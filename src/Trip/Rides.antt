-- ===== src/Trip/Rides.antt =====
-- `SqlAlchemyRideRepository` and `SqlAlchemyRideQuoteRepository` on the tables of rides, of
-- recorded transitions and of quotes (app_base/modules/ride/infra/repositories.py).
use diddi_go_backend.Base.{
  ℕ, ◌+◌, ◌*◌, ◌/◌, Bool, false, not, ◌&&◌, ◌||◌, Option, none, some, List, [], ◌∷◌, ◌++◌, String,
  if◌then◌else◌, ◌==◌, find, any, count, update, ltb, str_eq,
}
use diddi_go_backend.Base.Transaction.{
  integrity_error, ok, err, Method, Task, call, ◌>>◌, pure, raise, key_error,
}
use diddi_go_backend.Ride.Status.{
  RideStatus, matched, driver_en_route, arrived, in_progress, waiting, status_in,
}
use diddi_go_backend.Ride.Entity.{RideStatusTransition, is_active}
use diddi_go_backend.Trip.Entities.{Trip, TripDb, RideQuote, has_id}

-- A value of the column NUMERIC(4, 2), kept in ten-thousandths: the database rounds to the
-- nearest hundredth, a half away from zero.
abbrev pub numeric_4_2 : ℕ → ℕ
numeric_4_2 rate = (rate + 50) / 100 * 100

-- A value of a column NUMERIC(…, 2), kept in thousandths, in the same way.
abbrev pub to_hundredths : ℕ → ℕ
to_hundredths n = (n + 5) / 10 * 10

-- `_apply`: the row that a ride leaves. The transitions it has made are not a column.
abbrev pub to_row : Trip → Trip
to_row t = record t {
  ride = record t.ride { status_history = [] };
  commission_rate = numeric_4_2 t.commission_rate;
  distance_km = elim t.distance_km [ none ↦ none | some n ↦ some (to_hundredths n) ];
}

abbrev pub add_or_update : Trip → List Trip → List Trip
add_or_update t rows =
    if any (has_id t.ride.id) rows
    then update (has_id t.ride.id) (λ _. to_row t) rows
    else rows ++ to_row t ∷ []

-- `driver_id IS NOT NULL AND status IN (…)`, and the same driver
abbrev pub holds_driver : ℕ → Trip → Bool
holds_driver driver t = elim t.ride.driver_id [
  | some d ↦
      d == driver
      && status_in t.ride.status (matched ∷ driver_en_route ∷ arrived ∷ in_progress ∷ waiting ∷ [])
  | none ↦ false
]

abbrev pub has_share_token : String → Trip → Bool
has_share_token token t = elim t.share_token [ some s ↦ str_eq s token | none ↦ false ]

-- the unique index `uq_rides_one_active_per_driver`, against a row beside that of the ride `k`
abbrev pub driver_taken : (k : ℕ) → RideStatus → Option ℕ → List Trip → Bool
driver_taken k status none rows = false
driver_taken k status (some driver) rows =
    status_in status (matched ∷ driver_en_route ∷ arrived ∷ in_progress ∷ waiting ∷ [])
    && any (λ o. not (has_id k o) && holds_driver driver o) rows

-- the unique column `share_token`, in the same way
abbrev pub token_taken : (k : ℕ) → Option String → List Trip → Bool
token_taken k none rows = false
token_taken k (some token) rows = any (λ o. not (has_id k o) && has_share_token token o) rows

abbrev pub has_quote_id : ℕ → Trip → Bool
has_quote_id quote_id t = elim t.quote_id [ some q ↦ q == quote_id | none ↦ false ]

-- the unique column `quote_id`, in the same way
abbrev pub quote_taken : (k : ℕ) → Option ℕ → List Trip → Bool
quote_taken k none rows = false
quote_taken k (some quote_id) rows = any (λ o. not (has_id k o) && has_quote_id quote_id o) rows

-- the constraints that a saved ride can violate
abbrev pub conflicts : Trip → List Trip → Bool
conflicts t rows =
    driver_taken t.ride.id t.ride.status t.ride.driver_id rows
    || token_taken t.ride.id t.share_token rows
    || quote_taken t.ride.id t.quote_id rows

unfoldable pub save : Trip → Method TripDb (Unit {0})
save t db =
    if conflicts t db.rides
    then (err integrity_error, db)
    else (ok tt, record db { rides = add_or_update t db.rides })

unfoldable pub find_by_id : ℕ → TripDb → Option Trip
find_by_id i db = find (has_id i) db.rides

unfoldable pub find_by_share_token : String → TripDb → Option Trip
find_by_share_token token db = find (has_share_token token) db.rides

-- an active ride of the passenger
abbrev pub is_live_of : ℕ → Trip → Bool
is_live_of passenger t = (t.ride.passenger_user_id == passenger) && is_active t.ride

unfoldable pub has_active_ride : ℕ → TripDb → Bool
has_active_ride passenger db = ltb 0 (count (is_live_of passenger) db.rides)

unfoldable pub record_status_transition : RideStatusTransition → Method TripDb (Unit {0})
record_status_transition transition db =
    (ok tt, record db { history = db.history ++ transition ∷ [] })

-- `for transition in ride.status_history: await record_status_transition(transition)`
unfoldable pub record_transitions : List RideStatusTransition → Task TripDb (Unit {0})
record_transitions [] = pure tt
record_transitions (t ∷ ts) = call (record_status_transition t) >> record_transitions ts

-- `record_status_transition(ride.status_history[-1])`; an empty list has no last element.
unfoldable pub record_last : List RideStatusTransition → Task TripDb (Unit {0})
record_last [] = raise key_error
record_last (t ∷ ts) = elim ts [
  | [] ↦ call (record_status_transition t)
  | t' ∷ ts' ↦ record_last ts
]

abbrev pub is_quote : ℕ → RideQuote → Bool
is_quote i q = q.id == i

unfoldable pub find_quote : ℕ → TripDb → Option RideQuote
find_quote i db = find (is_quote i) db.quotes

unfoldable pub consume : RideQuote → (ride_id consumed_at : ℕ) → Method TripDb (Unit {0})
consume quote ride_id consumed_at db = (
  ok tt,
  record db {
    quotes =
        update (is_quote quote.id)
          (λ q. record q { ride_id = some ride_id; consumed_at = some consumed_at }) db.quotes;
  },
)
