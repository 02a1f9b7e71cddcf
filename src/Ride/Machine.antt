-- ===== src/Ride/Machine.antt =====
-- What holds of a ride under any sequence of requests to move it: the machine of
-- app_base/modules/ride/domain/entities.py as a relation, and the states that end it.
use diddi_go_backend.Base.{
  ℕ, ◌≡◌, refl, ap, ◌↔◌, ◌⊎◌, inl, inr, true, false, none, List, [], ◌∷◌, arith,
}
use mathlib.Core.Path.{subst}
use diddi_go_backend.Ride.Status.{
  RideStatus, requested, matched, driver_en_route, arrived, in_progress, waiting, completed,
  cancelled_by_passenger, cancelled_by_driver, no_driver_found, status_in, allowed_transitions,
  is_active_status,
}
use diddi_go_backend.Ride.Entity.{Ride, enter_status, attempt, is_active}

-- A sequence of requests, each with its moment; a refused one leaves the ride as it was.
unfoldable pub attempts : Ride → List (RideStatus × ℕ) → Ride
attempts r [] = r
attempts r ((s, now) ∷ rest) = attempts (attempt r s now) rest

-- The statuses from which a ride can still move.
pub data IsOpen : RideStatus → Type 0 where
  open_requested : IsOpen requested
  open_matched : IsOpen matched
  open_en_route : IsOpen driver_en_route
  open_arrived : IsOpen arrived
  open_in_progress : IsOpen in_progress
  open_waiting : IsOpen waiting

-- One move of the machine, and any number of moves.
infix 40 ◌⟶◌ ◌⟶*◌
pub data ◌⟶◌ : RideStatus → RideStatus → Type 0 where
  match : requested ⟶ matched
  no_driver : requested ⟶ no_driver_found
  drive : matched ⟶ driver_en_route
  arrive : driver_en_route ⟶ arrived
  start : arrived ⟶ in_progress
  wait : in_progress ⟶ waiting
  resume : waiting ⟶ in_progress
  finish : in_progress ⟶ completed
  finish_waiting : waiting ⟶ completed
  passenger_cancels : {s : RideStatus} → IsOpen s → s ⟶ cancelled_by_passenger
  driver_cancels : {s : RideStatus} → IsOpen s → s ⟶ cancelled_by_driver

pub data ◌⟶*◌ : RideStatus → RideStatus → Type 0 where
  here : {s : RideStatus} → s ⟶* s
  then : {s t u : RideStatus} → s ⟶ t → t ⟶* u → s ⟶* u

ruleset edges = (
  match, no_driver, drive, arrive, start, wait, resume, finish, finish_waiting, passenger_cancels,
  driver_cancels,
)

ruleset opens =
    (open_requested, open_matched, open_en_route, open_arrived, open_in_progress, open_waiting)

allowed-⟶ : (s t : RideStatus) → status_in t (allowed_transitions s) ≡ true → s ⟶ t
allowed-⟶ s t h = grind (arith, edges, opens)

⟶-allowed : {s t : RideStatus} → s ⟶ t → status_in t (allowed_transitions s) ≡ true
⟶-allowed match = refl
⟶-allowed no_driver = refl
⟶-allowed drive = refl
⟶-allowed arrive = refl
⟶-allowed start = refl
⟶-allowed wait = refl
⟶-allowed resume = refl
⟶-allowed finish = refl
⟶-allowed finish_waiting = refl
⟶-allowed (passenger_cancels open_requested) = refl
⟶-allowed (passenger_cancels open_matched) = refl
⟶-allowed (passenger_cancels open_en_route) = refl
⟶-allowed (passenger_cancels open_arrived) = refl
⟶-allowed (passenger_cancels open_in_progress) = refl
⟶-allowed (passenger_cancels open_waiting) = refl
⟶-allowed (driver_cancels open_requested) = refl
⟶-allowed (driver_cancels open_matched) = refl
⟶-allowed (driver_cancels open_en_route) = refl
⟶-allowed (driver_cancels open_arrived) = refl
⟶-allowed (driver_cancels open_in_progress) = refl
⟶-allowed (driver_cancels open_waiting) = refl

-- A request leaves the ride as it was, or makes a move that the table allows.
pub attempt-cases :
    (r : Ride) (t : RideStatus) (now : ℕ)
    → (attempt r t now ≡ r)
      ⊎ ((status_in t (allowed_transitions r.status) ≡ true)
          × (attempt r t now ≡ enter_status r t now none))
unfolding attempt
attempt-cases r t now = ground arith

attempt_allowed :
    (r : Ride) (t : RideStatus) (now : ℕ)
    → status_in t (allowed_transitions r.status) ≡ true
    → (attempt r t now).status ≡ t
unfolding attempt
attempt_allowed r t now h = ground arith

attempt-⟶ :
    (r : Ride) (t : RideStatus) (now : ℕ)
    → ((attempt r t now).status ≡ r.status) ⊎ (r.status ⟶ (attempt r t now).status)
unfolding enter_status
attempt-⟶ r t now = elim (attempt-cases r t now) [
  | inl e ↦ inl (ap (λ (x : Ride). x.status) e)
  | inr (h, e) ↦ inr (rw e (allowed-⟶ r.status t h))
]

attempts-⟶* : (r : Ride) (l : List (RideStatus × ℕ)) → r.status ⟶* (attempts r l).status
unfolding attempts
attempts-⟶* r [] = here
attempts-⟶* r ((t, now) ∷ l) =
    let rest = attempts-⟶* (attempt r t now) l in
    elim (attempt-⟶ r t now) [
      | inl e ↦ subst (λ s. s ⟶* (attempts (attempt r t now) l).status) e rest
      | inr m ↦ then m rest
    ]

⟶*-attempts :
    {s t : RideStatus}
    → s ⟶* t
    → (r : Ride) → r.status ≡ s
    → (l : List (RideStatus × ℕ)) × ((attempts r l).status ≡ t)
unfolding attempts
⟶*-attempts here r e = ([], e)
⟶*-attempts (then {t = u} m rest) r e =
    let (l, ends) = ⟶*-attempts rest (attempt r u 0) (attempt_allowed r u 0 (rw e (⟶-allowed m))) in
    ((u, 0) ∷ l, ends)

-- A ride that is not active is past every request.
inactive-attempt : (r : Ride) (t : RideStatus) (now : ℕ) → is_active r ≡ false → attempt r t now ≡ r
unfolding is_active attempt
inactive-attempt r t now h = ground arith

-- A ride that is not active stays exactly as it is under every sequence of requests to move it.
pub inactive_absorbs :
    (r : Ride) (l : List (RideStatus × ℕ)) → is_active r ≡ false → attempts r l ≡ r
unfolding attempts
inactive_absorbs r [] h = refl
inactive_absorbs r ((t, now) ∷ l) h = rw (inactive-attempt r t now h) (inactive_absorbs r l h)

-- Some sequence of requests drives a ride to a status if and only if the machine has a path to
-- that status from the ride's own.
pub attempts_reach :
    (r : Ride) (t : RideStatus)
    → ((l : List (RideStatus × ℕ)) × ((attempts r l).status ≡ t)) ↔ (r.status ⟶* t)
attempts_reach r t =
    (λ (l, e). subst (λ s. r.status ⟶* s) e (attempts-⟶* r l), λ path. ⟶*-attempts path r refl)

to_completed : {s : RideStatus} → IsOpen s → s ⟶* completed
to_completed open_requested = search (then, here, edges) depth 8
to_completed open_matched = search (then, here, edges)
to_completed open_en_route = search (then, here, edges)
to_completed open_arrived = search (then, here, edges)
to_completed open_in_progress = search (then, here, edges)
to_completed open_waiting = search (then, here, edges)

active-IsOpen : (s : RideStatus) → is_active_status s ≡ true → IsOpen s
active-IsOpen s h = grind (arith, opens)

-- For every active ride there is a sequence of requests after which it is completed.
pub active_completable :
    (r : Ride)
    → is_active r ≡ true
    → (l : List (RideStatus × ℕ)) × ((attempts r l).status ≡ completed)
unfolding is_active
active_completable r h = (attempts_reach r completed).1 (to_completed (active-IsOpen r.status h))
