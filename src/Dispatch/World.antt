-- ===== src/Dispatch/World.antt =====
-- What matching works on: the table of rides (`save` and `find_by_id` of
-- app_base/modules/ride/infra/repositories.py), the store of offers and the availability of
-- drivers; `_give_up`, `_load_active_ride` and `release_driver` of
-- app_base/modules/ride/application/matching_service.py.
use diddi_go_backend.Base.{
  ℕ, Bool, true, false, not, ◌&&◌, Option, none, some, List, [], ◌∷◌, ◌++◌, String, if◌then◌else◌,
  ◌==◌, find, any, update,
}
use diddi_go_backend.Ride.Status.{
  requested, matched, driver_en_route, arrived, in_progress, waiting, no_driver_found, status_eq,
  status_in,
}
use diddi_go_backend.Ride.Entity.{
  Ride, RideStatusTransition, TransitionResult, moved, invalid_status_transition, transition,
}
use diddi_go_backend.Dispatch.Offers.{OfferStore, clear}
use diddi_go_backend.Dispatch.Fleet.{DriverProfile}

pub record MatchingDispatch : Type 0 where
  pub driver_user_ids : List ℕ
  pub new_wave : Bool
  pub no_driver_found : Bool

-- An `ApiError`, SQLAlchemy's `IntegrityError` and `InvalidStatusTransition`.
pub data Failure : Type 0 where
  api_error : ℕ → String → Failure
  integrity_error invalid_transition : Failure

pub data Reply (A : Type 0) : Type 0 where
  reply : A → Reply A
  failure : Failure → Reply A

-- The table of rides, their recorded transitions, the store of offers, and the drivers that the
-- location service has as available.
pub record World : Type 0 where
  pub rides : List Ride
  pub history : List RideStatusTransition
  pub offers : OfferStore
  pub available : ℕ → Bool

abbrev pub has_ride_id : ℕ → Ride → Bool
has_ride_id i r = r.id == i

-- `find_by_id`
abbrev pub find_ride : ℕ → World → Option Ride
find_ride i w = find (has_ride_id i) w.rides

abbrev pub same_driver : Option ℕ → Option ℕ → Bool
same_driver (some a) (some b) = a == b
same_driver _ _ = false

-- The condition of the index `uq_rides_one_active_per_driver`.
abbrev pub holds_driver : Ride → Bool
holds_driver r =
    status_in r.status (matched ∷ driver_en_route ∷ arrived ∷ in_progress ∷ waiting ∷ [])

-- Another ride that the index does not let stand beside `r`.
abbrev pub conflicts : Ride → Ride → Bool
conflicts r other =
    not (other.id == r.id)
    && holds_driver r
    && holds_driver other
    && same_driver r.driver_id other.driver_id

-- `save` and `record_status_transition` for the transitions since the ride was read: the row has
-- no history of its own.
abbrev pub save : Ride → World → Option World
save r w =
    if any (conflicts r) w.rides
    then none
    else some (record w {
      rides = update (has_ride_id r.id) (λ _. record r { status_history = [] }) w.rides;
      history = w.history ++ r.status_history;
    })

abbrev pub saved_ride : Ride → Option World → Reply (Ride × World)
saved_ride r none = failure integrity_error
saved_ride r (some w') = reply (r, w')

abbrev pub moved_ride : TransitionResult → World → Reply (Ride × World)
moved_ride (invalid_status_transition _ _) w = failure invalid_transition
moved_ride (moved r) w = saved_ride r (save r w)

-- `_give_up`
unfoldable pub give_up : ℕ → Ride → World → Reply MatchingDispatch × World
give_up now ride w = elim (moved_ride (transition ride no_driver_found (some now) now none) w) [
  | failure e ↦ (failure e, w)
  | reply (r, w') ↦ (
    reply (record { driver_user_ids = []; new_wave = true; no_driver_found = true }),
    record w' { offers = clear ride.id w'.offers },
  )
]

-- `_load_active_ride`
unfoldable pub load_active_ride : ℕ → World → Reply Ride
load_active_ride ride_id w = elim (find_ride ride_id w) [
  | none ↦ failure (api_error 404 "RIDE_NOT_FOUND")
  | some ride ↦
      if status_eq ride.status matched
      then failure (api_error 409 "RIDE_ALREADY_MATCHED")
      else if not (status_eq ride.status requested)
      then failure (api_error 409 "RIDE_NOT_OFFERABLE")
      else reply ride
]

abbrev pub set_available : ℕ → Bool → World → World
set_available u b w = record w { available = λ v. if v == u then b else w.available v }

-- `release_driver`, given the driver of the ride
unfoldable pub release_driver : Option DriverProfile → Ride → World → World
release_driver profile ride w =
    let cleared = record w { offers = clear ride.id w.offers } in
    elim ride.driver_id [
      | none ↦ cleared
      | some d ↦ elim profile [ none ↦ cleared | some p ↦ set_available p.user_id true cleared ]
    ]
