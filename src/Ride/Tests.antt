-- ===== src/Ride/Tests.antt =====
-- A new ride and a driver's requests, and the theorems on the rides of
-- app_base/modules/ride/domain/entities.py at them.
use diddi_go_backend.Base.{ℕ, ◌≡◌, refl, ◌↔◌, List, [], ◌∷◌}
use diddi_go_backend.Ride.Status.{
  RideStatus, matched, driver_en_route, arrived, in_progress, completed, cancelled_by_driver,
}
use diddi_go_backend.Ride.Entity.{Ride, new_ride, is_active, attempt}
use diddi_go_backend.Ride.Machine.{
  attempts, ◌⟶*◌, inactive_absorbs, attempts_reach, active_completable,
}
use diddi_go_backend.Ride.Stamps.{
  IsStamped, Keeps, attempts-IsStamped, attempts-Keeps, new_ride-IsStamped,
}
use diddi_go_backend.Ride.History.{HasPath, IsFirstVisits, history_explains_ride}

-- A ride that is driven to its end, with a refused request on the way.
abbrev trip : List (RideStatus × ℕ)
trip =
    (matched, 10)
    ∷ (completed, 11)
    ∷ (driver_en_route, 20)
    ∷ (arrived, 30)
    ∷ (in_progress, 40)
    ∷ (completed, 50)
    ∷ []

abbrev fresh : Ride
fresh = new_ride 1 2

abbrev driven : Ride
driven = attempts fresh trip

attempts_reach_example :
    ((l : List (RideStatus × ℕ)) × ((attempts fresh l).status ≡ completed))
    ↔ (fresh.status ⟶* completed)
attempts_reach_example = attempts_reach fresh completed

history_explains_ride_example :
    HasPath (attempts (new_ride 1 2) trip) × IsFirstVisits (attempts (new_ride 1 2) trip)
history_explains_ride_example = history_explains_ride 1 2 trip

attempts-IsStamped_example : IsStamped (attempts fresh trip)
attempts-IsStamped_example = attempts-IsStamped fresh trip (new_ride-IsStamped 1 2)

attempts-Keeps_example : Keeps fresh (attempts fresh trip)
attempts-Keeps_example = attempts-Keeps fresh trip

inactive_absorbs_example : attempts driven ((cancelled_by_driver, 60) ∷ []) ≡ driven
unfolding is_active attempts attempt new_ride
inactive_absorbs_example = inactive_absorbs driven ((cancelled_by_driver, 60) ∷ []) refl

active_completable_example : (l : List (RideStatus × ℕ)) × ((attempts fresh l).status ≡ completed)
unfolding is_active new_ride
active_completable_example = active_completable fresh refl
