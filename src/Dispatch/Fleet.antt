-- ===== src/Dispatch/Fleet.antt =====
-- The drivers, their vehicles and what decides whether a driver can take a ride: `_can_take_ride`
-- and `_comfort_can_serve` of app_base/modules/ride/application/matching_service.py.
use diddi_go_backend.Base.{ℕ, Bool, true, false, not, Option, none, some, if◌then◌else◌, ◌==◌, leb}
use diddi_go_backend.Base.Int.{ℤ, ltb_ℤ}
use diddi_go_backend.Ride.Status.{VehicleCategory, ComfortLevel, DriverStatus, active}
use diddi_go_backend.Ride.Entity.{Ride}

-- The profile and the vehicle, as far as matching reads them.
pub record DriverProfile : Type 0 where
  pub id : ℕ
  pub user_id : ℕ
  pub status : DriverStatus
  pub is_review_account : Bool

pub record Vehicle : Type 0 where
  pub id : ℕ
  pub category : VehicleCategory
  pub comfort_level : ComfortLevel

-- What the repositories and the partner service answer. A profile is found by its user, a vehicle,
-- a block and a balance by the profile. `balance` is none where no payments are wired.
pub record Fleet : Type 0 where
  pub profile_of : ℕ → Option DriverProfile
  pub vehicle_of : ℕ → Option Vehicle
  pub blocked : ℕ → Bool
  pub balance : ℕ → Option ℤ
  pub min_balance : ℤ

abbrev pub category_place : VehicleCategory → ℕ
category_place VehicleCategory.standard = 0
category_place VehicleCategory.comfort = 1
category_place VehicleCategory.van = 2

abbrev pub rank : ComfortLevel → ℕ
rank ComfortLevel.standard = 1
rank ComfortLevel.comfort = 2
rank ComfortLevel.premium = 3

-- `_comfort_can_serve`
abbrev pub comfort_can_serve : (vehicle requested : ComfortLevel) → Bool
comfort_can_serve vehicle requested = leb (rank requested) (rank vehicle)

abbrev pub is_active_driver : DriverStatus → Bool
is_active_driver active = true
is_active_driver _ = false

abbrev pub same_bool : Bool → Bool → Bool
same_bool true b = b
same_bool false b = not b

abbrev pub too_low : ℤ → Option ℤ → Bool
too_low least none = false
too_low least (some b) = ltb_ℤ b least

-- `_can_take_ride`, without the reason that it logs.
unfoldable pub can_take_ride : Fleet → ℕ → Ride → Bool
can_take_ride fleet user_id ride = elim (fleet.profile_of user_id) [
  | none ↦ false
  | some profile ↦
      if not (same_bool profile.is_review_account ride.is_review_account)
      then false
      else if not (is_active_driver profile.status)
      then false
      else elim (fleet.vehicle_of profile.id) [
        | none ↦ false
        | some vehicle ↦
            if fleet.blocked profile.id
            then false
            else if too_low fleet.min_balance (fleet.balance profile.id)
            then false
            else if not (category_place vehicle.category == category_place ride.vehicle_category)
            then false
            else if not (comfort_can_serve vehicle.comfort_level ride.comfort_level)
            then false
            else true
      ]
]
