-- ===== src/Trip/Moves.antt =====
-- The moves that the ride use cases make, as steps of the invariant: `Ride.transition` to a status
-- that is not `completed`, and the completion that fixes the fares
-- (app_base/modules/ride/application/services.py).
use diddi_go_backend.Base.{
  ℕ, ◌≡◌, refl, ap, ◌∙◌, inl, inr, true, false, Option, arith, ◌⊎◌, or_else,
}
use mathlib.Core.Path.{subst}
use diddi_go_backend.Base.Int.{ℤ, ◌+ℤ◌, ◌-ℤ◌, int_laws}
use diddi_go_backend.Base.Transaction.{ok}
use diddi_go_backend.Ride.Status.{
  RideStatus, completed, status_eq, status_in, allowed_transitions, is_active_status,
}
use diddi_go_backend.Ride.Entity.{
  Ride, Metadata, is_active, TransitionResult, moved, invalid_status_transition, transition,
  enter_status,
}
use diddi_go_backend.Trip.Entities.{Trip}
use diddi_go_backend.Trip.Money.{commission}
use diddi_go_backend.Trip.Pricing.{shared_fare}
use diddi_go_backend.Trip.Access.{move, moved_trip}
use diddi_go_backend.Trip.Sound.{Step, Step-refl, Shared}

allowed_active :
    (s t : RideStatus) → status_in t (allowed_transitions s) ≡ true → is_active_status s ≡ true
allowed_active s t h = ground arith

enter-Step :
    (r : Ride) (new_status : RideStatus) (now : ℕ) (metadata : Option Metadata)
    → status_in new_status (allowed_transitions r.status) ≡ true
    → status_eq new_status completed ≡ false
    → Step r (enter_status r new_status now metadata)
unfolding enter_status is_active
enter-Step r new_status now metadata allowed other = record {
  same_id = refl;
  same_passenger = refl;
  live = λ _. allowed_active r.status new_status allowed;
  pays = λ _ e. cc;
}

-- The ways in which a transition ends.
transition-cases :
    (r : Ride) (new_status : RideStatus) (when : Option ℕ) (clock : ℕ) (metadata : Option Metadata)
    → ((transition r new_status when clock metadata ≡ moved r)
        × (status_eq new_status r.status ≡ true))
      ⊎ ((status_in new_status (allowed_transitions r.status) ≡ true)
          × (transition r new_status when clock metadata
              ≡ moved (enter_status r new_status (or_else when clock) metadata)))
      ⊎ (transition r new_status when clock metadata
          ≡ invalid_status_transition r.status new_status)
unfolding transition
transition-cases r new_status when clock metadata = ground arith

transition-Step :
    (r r' : Ride) (new_status : RideStatus) (when : Option ℕ) (clock : ℕ)
    (metadata : Option Metadata)
    → status_eq new_status completed ≡ false
    → transition r new_status when clock metadata ≡ moved r'
    → Step r r'
transition-Step r r' new_status when clock metadata other h =
    elim (transition-cases r new_status when clock metadata) [
      | inl (still, _) ↦ let same : r ≡ r' = cc in subst (λ x. Step r x) same (Step-refl r)
      | inr (inl (allowed, enters)) ↦
          let same : enter_status r new_status (or_else when clock) metadata ≡ r' = cc in
          subst (λ x. Step r x) same
            (enter-Step r new_status (or_else when clock) metadata allowed other)
      | inr (inr refused) ↦ cc
    ]

moved_trip-moved : (t t' : Trip) (o : TransitionResult) → moved_trip t o ≡ ok t' → o ≡ moved t'.ride
moved_trip-moved t t' (moved r) h =
    let same : record t { ride = r } ≡ t' = cc in ap (λ (x : Trip). moved x.ride) same
moved_trip-moved t t' (invalid_status_transition a b) h = cc

pub move-Step :
    (t t' : Trip) (new_status : RideStatus) (when : Option ℕ) (clock : ℕ)
    (metadata : Option Metadata)
    → status_eq new_status completed ≡ false
    → move t new_status when clock metadata ≡ ok t'
    → Step t.ride t'.ride
unfolding move
move-Step t t' new_status when clock metadata other h =
    transition-Step t.ride t'.ride new_status when clock metadata other
      (moved_trip-moved t t' (transition t.ride new_status when clock metadata) h)

fee_and_rest : (fare fee : ℤ) → fee +ℤ (fare -ℤ fee) ≡ fare
fee_and_rest fare fee = grind int_laws

pub shared_fare-Shared : (t : Trip) (fare : ℤ) → Shared (shared_fare t fare).ride
unfolding shared_fare
shared_fare-Shared t fare = (
  fare,
  (
    commission fare t.commission_rate,
    (
      fare -ℤ commission fare t.commission_rate,
      (refl, (refl, (refl, fee_and_rest fare (commission fare t.commission_rate)))),
    ),
  ),
)

-- The same ride of the same passenger.
pub record Same (r r' : Ride) : Type 0 where
  pub same_id : r'.id ≡ r.id
  pub same_passenger : r'.passenger_user_id ≡ r.passenger_user_id

pub Same-refl : (r : Ride) → Same r r
Same-refl r = record { same_id = refl; same_passenger = refl }

pub Same-trans : {r s t : Ride} → Same r s → Same s t → Same r t
Same-trans a b = record {
  same_id = b.same_id ∙ a.same_id;
  same_passenger = b.same_passenger ∙ a.same_passenger;
}

-- A completed ride that is paid out is a step from any earlier state of the ride.
pub completed-Step : (r r' : Ride) → Same r r' → r'.status ≡ completed → Shared r' → Step r r'
unfolding is_active
completed-Step r r' same ends paid = record {
  same_id = same.same_id;
  same_passenger = same.same_passenger;
  live = λ h. cc;
  pays = λ _ _. paid;
}

completed_eq : (s : RideStatus) → status_eq completed s ≡ true → s ≡ completed
completed_eq s h = ground arith

enter-completed :
    (r : Ride) (now : ℕ) (metadata : Option Metadata)
    → Shared r
    → Shared (enter_status r completed now metadata)
unfolding enter_status
enter-completed r now metadata (fare, (fee, (payout, (a, (b, (c, d)))))) =
    (fare, (fee, (payout, (ground (arith, a), (b, (c, d))))))

-- What a ride that has been moved to `completed` is.
pub record Ended (t t' : Trip) : Type 0 where
  pub same : Same t.ride t'.ride
  pub ends : t'.ride.status ≡ completed
  pub paid : Shared t.ride → Shared t'.ride

ended_by :
    (r r' : Ride) (when : Option ℕ) (clock : ℕ) (metadata : Option Metadata)
    → transition r completed when clock metadata ≡ moved r'
    → Same r r' × ((r'.status ≡ completed) × (Shared r → Shared r'))
unfolding enter_status
ended_by r r' when clock metadata h = elim (transition-cases r completed when clock metadata) [
  | inl (still, ends) ↦
      let same : r ≡ r' = cc in
      subst (λ (x : Ride). Same r x × ((x.status ≡ completed) × (Shared r → Shared x))) same
        (Same-refl r, (completed_eq r.status ends, λ s. s))
  | inr (inl (allowed, enters)) ↦
      let same : enter_status r completed (or_else when clock) metadata ≡ r' = cc in
      subst (λ (x : Ride). Same r x × ((x.status ≡ completed) × (Shared r → Shared x))) same
        (
          record { same_id = refl; same_passenger = refl },
          (refl, enter-completed r (or_else when clock) metadata),
        )
  | inr (inr refused) ↦ cc
]

pub move-Ended :
    (t t' : Trip) (when : Option ℕ) (clock : ℕ) (metadata : Option Metadata)
    → move t completed when clock metadata ≡ ok t'
    → Ended t t'
unfolding move
move-Ended t t' when clock metadata h =
    let (same, (ends, paid)) =
      ended_by t.ride t'.ride when clock metadata
        (moved_trip-moved t t' (transition t.ride completed when clock metadata) h) in
    record { same = same; ends = ends; paid = paid }
