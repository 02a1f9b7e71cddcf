-- ===== src/Trip/Rules.antt =====
-- The rules that the use cases share: a ride that is loaded, the guards, and the methods that
-- leave rides and ratings as they were (app_base/modules/ride/application/services.py).
use diddi_go_backend.Base.{
  ℕ, ◌≡◌, refl, inl, inr, Option, none, some, List, [], ◌∷◌, ◌∙◌, Option-cases,
}
use diddi_go_backend.Base.Transaction.{Error, api_error, Result, ok, err, Method, call, pure, ◌>>◌}
use diddi_go_backend.Base.Safe.{
  Returns, Safe, bind-Safe, then-Safe, lift-Safe, guard-Safe, ask-Safe, told-Safe, call-Safe,
  raise-Safe, end-Safe, more-Safe,
}
use diddi_go_backend.Ride.Entity.{RideStatusTransition}
use diddi_go_backend.Trip.Entities.{Trip, TripDb}
use diddi_go_backend.Trip.Rides.{
  save, find_by_id, record_status_transition, record_transitions, record_last,
}
use diddi_go_backend.Trip.Access.{
  Settings, Actor, expect, load_ride, require_driver, require_participant, record_ride_outcome,
  outcome_kind,
}
use diddi_go_backend.Trip.Sound.{Sound, Found, Step, save-Safe}
use diddi_go_backend.Trip.Progress.{store_move}
use diddi_go_backend.Trip.Finish.{store_outcome}

expect_ok : {A : Type 0} (e : Error) (o : Option A) (a : A) → expect e o ≡ ok a → o ≡ some a
expect_ok e none a h = cc
expect_ok e (some b) a h = cc

pub load-Safe : {P : TripDb → Type 0} (i : ℕ) → Safe Sound P (load_ride i) (Found i)
unfolding load_ride find_by_id
load-Safe i = bind-Safe (told-Safe (find_by_id i)) λ o.
    more-Safe (λ t db known. known.0.1 ∙ expect_ok (api_error 404 "RIDE_NOT_FOUND") o t known.1)
      (lift-Safe (expect (api_error 404 "RIDE_NOT_FOUND") o))

pub unit-Returns : {A : Type 0} (r : Result A) (db : TripDb) → Returns (λ _ _. Unit) r db
unit-Returns (ok a) db = tt
unit-Returns (err e) db = tt

Found-Returns :
    {A : Type 0} (i : ℕ) (t : Trip) (r : Result A) (db : TripDb)
    → Found i t db
    → Returns (λ _. Found i t) r db
Found-Returns i t (ok a) db found = found
Found-Returns i t (err e) db found = tt

-- A method that leaves rides and ratings as they were keeps what is known of a loaded ride.
pub quiet-Safe :
    {A : Type 0} {P : TripDb → Type 0} (q : Method TripDb A)
    → ((db : TripDb) → (q db).1.rides ≡ db.rides)
    → ((db : TripDb) → (q db).1.ratings ≡ db.ratings)
    → Safe Sound P (call q) (λ _ _. Unit)
quiet-Safe q rides ratings = call-Safe q λ db h p. (
  record {
    paid = rw (rides db) h.paid;
    single = rw (rides db) h.single;
    in_range = rw (ratings db) h.in_range;
    once = rw (ratings db) h.once;
  },
  unit-Returns (q db).0 (q db).1,
)

-- The same, and the loaded ride is still what the tables have.
pub beside-Safe :
    {A : Type 0} (i : ℕ) (t : Trip) (q : Method TripDb A)
    → ((db : TripDb) → (q db).1.rides ≡ db.rides)
    → ((db : TripDb) → (q db).1.ratings ≡ db.ratings)
    → Safe Sound (Found i t) (call q) (λ _. Found i t)
beside-Safe i t q rides ratings = call-Safe q λ db h found. (
  record {
    paid = rw (rides db) h.paid;
    single = rw (rides db) h.single;
    in_range = rw (ratings db) h.in_range;
    once = rw (ratings db) h.once;
  },
  Found-Returns i t (q db).0 (q db).1 (rw (rides db) found),
)

pub require_driver-Safe :
    {P : TripDb → Type 0} (t : Trip) (actor : Actor)
    → Safe Sound P (require_driver t actor) (λ _. P)
unfolding require_driver
require_driver-Safe t actor = bind-Safe (ask-Safe _) λ assigned. guard-Safe _ _

pub require_participant-Safe :
    {P : TripDb → Type 0} (t : Trip) (actor : Actor)
    → Safe Sound P (require_participant t actor) (λ _. P)
unfolding require_participant
require_participant-Safe t actor = bind-Safe (ask-Safe _) λ assigned. guard-Safe _ _

record_one-Safe :
    {P : TripDb → Type 0} (x : RideStatusTransition)
    → Safe Sound P (call (record_status_transition x)) (λ _ _. Unit)
unfolding record_status_transition
record_one-Safe x = quiet-Safe (record_status_transition x) (λ db. refl) λ db. refl

pub record_transitions-Safe :
    {P : TripDb → Type 0} (l : List RideStatusTransition)
    → Safe Sound P (record_transitions l) (λ _ _. Unit)
unfolding record_transitions
record_transitions-Safe [] = end-Safe tt
record_transitions-Safe (x ∷ xs) = then-Safe (record_one-Safe x) (record_transitions-Safe xs)

pub record_last-Safe :
    {P : TripDb → Type 0} (l : List RideStatusTransition)
    → Safe Sound P (record_last l) (λ _ _. Unit)
unfolding record_last
record_last-Safe [] = raise-Safe _
record_last-Safe (x ∷ []) = record_one-Safe x
record_last-Safe (x ∷ y ∷ ys) = record_last-Safe (y ∷ ys)

pub outcome-Safe :
    {P : TripDb → Type 0} (cfg : Settings) (t : Trip)
    → Safe Sound P (record_ride_outcome cfg t) (λ _ _. Unit)
unfolding record_ride_outcome
outcome-Safe cfg t = elim (Option-cases (outcome_kind t.ride.status)) [
  | inl neither ↦ rw (neither, record_ride_outcome) (end-Safe tt)
  | inr (kind, ended) ↦
      rw (ended, record_ride_outcome)
        (elim (Option-cases t.ride.driver_id) [
          | inl nobody ↦ rw nobody (end-Safe tt)
          | inr (d, driven) ↦ rw driven (quiet-Safe _ (λ db. refl) λ db. refl)
        ])
]

-- A ride that is changed in a step, saved, and its last transition recorded.
pub store_move-Safe :
    (i : ℕ) (r t : Trip) → Step r.ride t.ride → Safe Sound (Found i r) (store_move t) (λ _ _. Unit)
unfolding store_move
store_move-Safe i r t step =
    then-Safe (then-Safe (save-Safe i r t step) (record_last-Safe t.ride.status_history))
      (end-Safe t)

pub store_outcome-Safe :
    (cfg : Settings) (i : ℕ) (r t : Trip)
    → Step r.ride t.ride
    → Safe Sound (Found i r) (store_outcome cfg t) (λ _ _. Unit)
unfolding store_outcome
store_outcome-Safe cfg i r t step =
    then-Safe
      (then-Safe (then-Safe (save-Safe i r t step) (record_transitions-Safe t.ride.status_history))
        (outcome-Safe cfg t))
      (end-Safe t)

-- A ride that is changed in a step and saved.
pub store-Safe :
    (i : ℕ) (r t : Trip)
    → Step r.ride t.ride
    → Safe Sound (Found i r) (call (save t) >> pure t) (λ _ _. Unit)
store-Safe i r t step = then-Safe (save-Safe i r t step) (end-Safe t)
