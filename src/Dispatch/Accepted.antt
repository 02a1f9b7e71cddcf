-- ===== src/Dispatch/Accepted.antt =====
-- `accept` of app_base/modules/ride/application/matching_service.py: who gets a ride, and that nobody gets it twice.
use mathlib.Core.Path.{subst}
use diddi_go_backend.Base.{
  ℕ, ◌≡◌, refl, inl, inr, true, some, List, [], ◌∷◌, arith, Bool-cases, Option-cases, contains,
  find, sym,
}
use diddi_go_backend.Ride.Status.{RideStatus, matched, requested, status_eq}
use diddi_go_backend.Ride.Entity.{Ride}
use diddi_go_backend.Dispatch.Offers.{current_offers, is_nonempty}
use diddi_go_backend.Dispatch.Fleet.{Fleet, DriverProfile, Vehicle, is_active_driver, same_bool}
use diddi_go_backend.Dispatch.World.{
  World, Reply, reply, failure, api_error, find_ride, has_ride_id, load_active_ride,
}
use diddi_go_backend.Dispatch.Acceptance.{claim_and_assign, accept_loaded, accept}
use diddi_go_backend.Dispatch.Won.{IsWon, Outcome, claim_and_assign-Outcome}

-- An accepted ride: the driver was offered it, is active and has the vehicle it is given.
pub record IsAccepted (fleet : Fleet) (now i user_id : ℕ) (w : World) (r : Ride) (w' : World)
    : Type 0 where
  pub profile : DriverProfile
  pub vehicle : Vehicle
  pub was_offered : contains user_id (current_offers now i w.offers) ≡ true
  pub is_known : fleet.profile_of user_id ≡ some profile
  pub is_verified : is_active_driver profile.status ≡ true
  pub has_car : fleet.vehicle_of profile.id ≡ some vehicle
  pub is_won : IsWon profile vehicle i r w'

Outcome-map :
    (w : World) (P Q : Ride → World → Type 0) (o : Reply Ride × World)
    → ((r : Ride) (v : World) → P r v → Q r v)
    → Outcome w P o
    → Outcome w Q o
Outcome-map w P Q (reply r, v) f h = f r v h
Outcome-map w P Q (failure e, v) f h = h

accept_loaded-Outcome :
    (fleet : Fleet) (now user_id : ℕ) (ride : Ride) (w : World)
    → find_ride ride.id w ≡ some ride
    → ride.status ≡ requested
    → Outcome w (IsAccepted fleet now ride.id user_id w) (accept_loaded fleet now user_id ride w)
unfolding accept_loaded
accept_loaded-Outcome fleet now user_id ride w there open_ =
    elim (Bool-cases (is_nonempty (current_offers now ride.id w.offers))) [
      | inr expired ↦ rw (expired, accept_loaded) (refl, refl)
      | inl live_ ↦ elim (Bool-cases (contains user_id (current_offers now ride.id w.offers))) [
        | inr other ↦ rw (live_, other, accept_loaded) (refl, refl)
        | inl offered ↦ elim (Option-cases (fleet.profile_of user_id)) [
          | inl unknown ↦ rw (live_, offered, unknown, accept_loaded) (refl, refl)
          | inr (p, known) ↦ elim (Bool-cases (is_active_driver p.status)) [
            | inr inactive ↦ rw (live_, offered, known, inactive, accept_loaded) (refl, refl)
            | inl verified ↦
                elim (Bool-cases (same_bool p.is_review_account ride.is_review_account)) [
                  | inr apart ↦
                      rw (live_, offered, known, verified, apart, accept_loaded) (refl, refl)
                  | inl together ↦ elim (Option-cases (fleet.vehicle_of p.id)) [
                    | inl carless ↦
                        rw (live_, offered, known, verified, together, carless, accept_loaded)
                          (refl, refl)
                    | inr (car, has_car) ↦
                        rw (live_, offered, known, verified, together, has_car, accept_loaded)
                          (Outcome-map w (IsWon p car ride.id)
                            (IsAccepted fleet now ride.id user_id w)
                            (claim_and_assign now p car user_id ride w)
                            (λ r v won. record {
                              profile = p;
                              vehicle = car;
                              was_offered = offered;
                              is_known = known;
                              is_verified = verified;
                              has_car = has_car;
                              is_won = won;
                            })
                            (claim_and_assign-Outcome now p car user_id ride w there open_))
                  ]
                ]
          ]
        ]
      ]
    ]

found_ride_id : (i : ℕ) (rs : List Ride) (r : Ride) → find (has_ride_id i) rs ≡ some r → r.id ≡ i
found_ride_id i [] r h = cc
found_ride_id i (v ∷ rs) r h = ground (arith, found_ride_id i rs r)

status_of_eq : (s t : RideStatus) → status_eq s t ≡ true → s ≡ t
status_of_eq s t h = grind arith

-- An acceptance that succeeds was offered to the driver, who is active and has the vehicle that
-- the ride gets; the ride is then matched and stored with that driver and that vehicle. One that
-- fails leaves the rides and the recorded transitions as they were.
pub accept-Outcome :
    (fleet : Fleet) (now i user_id : ℕ) (w : World)
    → Outcome w (IsAccepted fleet now i user_id w) (accept fleet now i user_id w)
unfolding accept load_active_ride
accept-Outcome fleet now i user_id w = elim (Option-cases (find_ride i w)) [
  | inl absent ↦ rw (absent, accept, load_active_ride) (refl, refl)
  | inr (ride, found) ↦
      let same = found_ride_id i w.rides ride found in
      elim (Bool-cases (status_eq ride.status matched)) [
        | inl taken ↦ rw (found, taken, accept, load_active_ride) (refl, refl)
        | inr free ↦ elim (Bool-cases (status_eq ride.status requested)) [
          | inr closed ↦ rw (found, free, closed, accept, load_active_ride) (refl, refl)
          | inl open_ ↦
              rw (found, free, open_, accept, load_active_ride)
                (subst
                  (λ j.
                    Outcome w (IsAccepted fleet now j user_id w)
                      (accept_loaded fleet now user_id ride w))
                  same
                  (accept_loaded-Outcome fleet now user_id ride w
                    (subst (λ j. find_ride j w ≡ some ride) (sym same) found)
                    (status_of_eq ride.status requested open_)))
        ]
      ]
]

-- In the state that a driver's successful acceptance leaves, every acceptance of the same ride,
-- by whichever driver and at whatever moment, is refused with RIDE_ALREADY_MATCHED and changes
-- nothing.
pub accepted_once :
    (fleet fleet' : Fleet) (now now' i user_id user_id' : ℕ) (w w' : World) (r : Ride)
    → accept fleet now i user_id w ≡ (reply r, w')
    → accept fleet' now' i user_id' w' ≡ (failure (api_error 409 "RIDE_ALREADY_MATCHED"), w')
unfolding accept load_active_ride
accepted_once fleet fleet' now now' i user_id user_id' w w' r h =
    let won =
      (subst (Outcome w (IsAccepted fleet now i user_id w)) h
        (accept-Outcome fleet now i user_id w)).is_won in
    rw (won.is_stored, won.is_matched, accept, load_active_ride) refl
