-- ===== src/Dispatch/Acceptance.antt =====
-- `accept` of app_base/modules/ride/application/matching_service.py. What it has written in
-- the store of offers stays when it raises; what it has written in the tables is rolled back.
use diddi_go_backend.Base.{ℕ, false, not, none, some, if◌then◌else◌, contains}
use diddi_go_backend.Ride.Status.{matched}
use diddi_go_backend.Ride.Entity.{Ride, transition}
use diddi_go_backend.Dispatch.Offers.{
  current_offers, close_offer, claim, release_claim, is_nonempty,
}
use diddi_go_backend.Dispatch.Fleet.{Fleet, DriverProfile, Vehicle, is_active_driver, same_bool}
use diddi_go_backend.Dispatch.World.{
  api_error, integrity_error, Reply, reply, failure, World, moved_ride, load_active_ride,
  set_available,
}

-- `ride.driver_id = …; ride.vehicle_id = …; ride.transition(MATCHED)` and the save
unfoldable pub assign : ℕ → DriverProfile → Vehicle → Ride → World → Reply (Ride × World)
assign now profile vehicle ride w =
    moved_ride
      (transition (record ride { driver_id = some profile.id; vehicle_id = some vehicle.id })
        matched (some now) now none)
      w

-- What the assignment of a claimed ride leaves.
abbrev pub assigned : ℕ → ℕ → World → Reply (Ride × World) → Reply Ride × World
assigned ride_id user_id w (reply (r, w')) =
    (reply r, set_available user_id false (record w' { offers = close_offer ride_id w'.offers }))
assigned ride_id user_id w (failure integrity_error) = (
  failure (api_error 409 "DRIVER_ALREADY_ON_ACTIVE_RIDE"),
  record w { offers = release_claim ride_id w.offers },
)
assigned ride_id user_id w (failure e) =
    (failure e, record w { offers = release_claim ride_id w.offers })

-- `accept`, from the claim on
unfoldable pub claim_and_assign :
    ℕ → DriverProfile → Vehicle → ℕ → Ride → World → Reply Ride × World
claim_and_assign now profile vehicle user_id ride w =
    let (won, offers') = claim now ride.id user_id w.offers in
    let w' = record w { offers = offers' } in
    if not won
    then (failure (api_error 409 "RIDE_ALREADY_MATCHED"), w')
    else assigned ride.id user_id w' (assign now profile vehicle ride w')

-- `accept`, once the ride is loaded
unfoldable pub accept_loaded : Fleet → (now user_id : ℕ) → Ride → World → Reply Ride × World
accept_loaded fleet now user_id ride w =
    let holders = current_offers now ride.id w.offers in
    if not (is_nonempty holders)
    then (failure (api_error 409 "OFFER_EXPIRED"), w)
    else if not (contains user_id holders)
    then (failure (api_error 403 "OFFER_NOT_YOURS"), w)
    else elim (fleet.profile_of user_id) [
      | none ↦ (failure (api_error 403 "DRIVER_NOT_VERIFIED"), w)
      | some profile ↦
          if not (is_active_driver profile.status)
          then (failure (api_error 403 "DRIVER_NOT_VERIFIED"), w)
          else if not (same_bool profile.is_review_account ride.is_review_account)
          then (failure (api_error 403 "REVIEW_COHORT_MISMATCH"), w)
          else elim (fleet.vehicle_of profile.id) [
            | none ↦ (failure (api_error 409 "NO_ACTIVE_VEHICLE"), w)
            | some vehicle ↦ claim_and_assign now profile vehicle user_id ride w
          ]
    ]

-- `accept`
unfoldable pub accept : Fleet → (now ride_id user_id : ℕ) → World → Reply Ride × World
accept fleet now ride_id user_id w = elim (load_active_ride ride_id w) [
  | failure e ↦ (failure e, w)
  | reply ride ↦ accept_loaded fleet now user_id ride w
]
