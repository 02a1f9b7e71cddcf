-- ===== src/Ride/Status.antt =====
-- The enumerations of app_base/modules/ride/domain/entities.py and `ALLOWED_TRANSITIONS`.
-- A set of statuses is the list of its members.
use diddi_go_backend.Base.{Bool, true, false, ◌||◌, List, [], ◌∷◌}

pub data RideStatus : Type 0 where
  requested matched driver_en_route arrived in_progress waiting : RideStatus
  completed cancelled_by_passenger cancelled_by_driver no_driver_found : RideStatus

pub data VehicleCategory : Type 0 where
  standard comfort van : VehicleCategory

pub data ComfortLevel : Type 0 where
  standard comfort premium : ComfortLevel

pub data PaymentMethod : Type 0 where
  cash mobile_money : PaymentMethod

pub data DriverStatus : Type 0 where
  pending_verification active suspended offline : DriverStatus

-- The position of a status in the enumeration, by which `==` compares.
abbrev pub status_eq : RideStatus → RideStatus → Bool
status_eq requested requested = true
status_eq matched matched = true
status_eq driver_en_route driver_en_route = true
status_eq arrived arrived = true
status_eq in_progress in_progress = true
status_eq waiting waiting = true
status_eq completed completed = true
status_eq cancelled_by_passenger cancelled_by_passenger = true
status_eq cancelled_by_driver cancelled_by_driver = true
status_eq no_driver_found no_driver_found = true
status_eq _ _ = false

-- `status in {…}`
abbrev pub status_in : RideStatus → List RideStatus → Bool
status_in s [] = false
status_in s (t ∷ ts) = status_eq s t || status_in s ts

abbrev pub allowed_transitions : RideStatus → List RideStatus
allowed_transitions requested =
    matched ∷ no_driver_found ∷ cancelled_by_passenger ∷ cancelled_by_driver ∷ []
allowed_transitions matched = driver_en_route ∷ cancelled_by_passenger ∷ cancelled_by_driver ∷ []
allowed_transitions driver_en_route = arrived ∷ cancelled_by_passenger ∷ cancelled_by_driver ∷ []
allowed_transitions arrived = in_progress ∷ cancelled_by_passenger ∷ cancelled_by_driver ∷ []
allowed_transitions in_progress =
    waiting ∷ completed ∷ cancelled_by_passenger ∷ cancelled_by_driver ∷ []
allowed_transitions waiting =
    in_progress ∷ completed ∷ cancelled_by_passenger ∷ cancelled_by_driver ∷ []
allowed_transitions completed = []
allowed_transitions cancelled_by_passenger = []
allowed_transitions cancelled_by_driver = []
allowed_transitions no_driver_found = []

-- the test of `Ride.is_active`
abbrev pub is_active_status : RideStatus → Bool
is_active_status s =
    status_in s (requested ∷ matched ∷ driver_en_route ∷ arrived ∷ in_progress ∷ waiting ∷ [])
