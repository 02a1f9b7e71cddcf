-- ===== src/Dispatch/Won.antt =====
-- The driver : `accept` of app_base/modules/ride/application/matching_service.py.
use mathlib.Core.Path.{subst}
use diddi_go_backend.Base.{
  ℕ, ◌≡◌, refl, inl, inr, true, false, none, some, List, [], ◌∷◌, arith, Bool-cases, Option-cases,
  find, any, update, or_else, ap, sym, ◌∙◌,
}
use diddi_go_backend.Ride.Status.{
  RideStatus, status_in, allowed_transitions, matched, requested, status_eq,
}
use diddi_go_backend.Ride.Entity.{Ride, transition, enter_status, moved}
use diddi_go_backend.Dispatch.Offers.{claim}
use diddi_go_backend.Dispatch.Fleet.{DriverProfile, Vehicle}
use diddi_go_backend.Dispatch.World.{
  World, Reply, reply, failure, api_error, integrity_error, invalid_transition, conflicts,
  find_ride, has_ride_id, save, moved_ride,
}
use diddi_go_backend.Dispatch.Acceptance.{assign, assigned, claim_and_assign}

-- What a successful assignment writes.
abbrev pub row_of : Ride → Ride
row_of r = record r { status_history = [] }

find-row :
    (i : ℕ) (rs : List Ride) (old row : Ride)
    → find (has_ride_id i) rs ≡ some old
    → row.id ≡ i
    → find (has_ride_id i) (update (has_ride_id i) (λ _. row) rs) ≡ some row
find-row i [] old row h e = cc
find-row i (v ∷ rs) old row h e = ground (arith, find-row i rs old row)

some-injective : {A : Type 0} (d a b : A) → some a ≡ some b → a ≡ b
some-injective d a b e = ap (λ o. or_else o d) e

save-stores :
    (old r : Ride) (w w' : World)
    → find_ride r.id w ≡ some old
    → save r w ≡ some w'
    → find_ride r.id w' ≡ some (row_of r)
save-stores old r w w' there h =
    let stored = find-row r.id w.rides old (row_of r) there refl in
    elim (Bool-cases (any (conflicts r) w.rides)) [
      | inl clash ↦ let bad : none ≡ some w' = rw clash at h in cc
      | inr free ↦
          let e = rw free at h in
          subst (λ v. find_ride r.id v ≡ some (row_of r)) (some-injective w _ w' e) stored
    ]

or_reply : {A : Type 0} → Reply A → A → A
or_reply (reply a) d = a
or_reply (failure e) d = d

reply-injective : {A : Type 0} (a b : A) → reply a ≡ reply b → a ≡ b
unfolding or_reply
reply-injective a b e = ap (λ o. or_reply o a) e

moved_ride-inv :
    (won r : Ride) (w w' : World)
    → moved_ride (moved won) w ≡ reply (r, w')
    → (won ≡ r) × (save won w ≡ some w')
moved_ride-inv won r w w' h = elim (Option-cases (save won w)) [
  | inl none_ ↦ let bad : failure integrity_error ≡ reply (r, w') = rw none_ at h in cc
  | inr (v, saved) ↦
      let e : reply (won, v) ≡ reply (r, w') = rw saved at h in
      let pair = reply-injective _ _ e in
      (ap (λ (p : Ride × World). p.0) pair, saved ∙ ap (λ (p : Ride × World). some p.1) pair)
]

-- The ride as an accepted driver gets it: matched, with the driver and the vehicle, and stored.
pub record IsWon (profile : DriverProfile) (vehicle : Vehicle) (i : ℕ) (r : Ride) (w' : World)
    : Type 0 where
  pub is_matched : r.status ≡ matched
  pub has_driver : r.driver_id ≡ some profile.id
  pub has_vehicle : r.vehicle_id ≡ some vehicle.id
  pub is_stored : find_ride i w' ≡ some (row_of r)

abbrev won_ride : ℕ → DriverProfile → Vehicle → Ride → Ride
won_ride now profile vehicle ride =
    enter_status (record ride { driver_id = some profile.id; vehicle_id = some vehicle.id }) matched
      now none

won_ride-IsWon :
    (now : ℕ) (profile : DriverProfile) (vehicle : Vehicle) (ride : Ride) (w w' : World)
    → find_ride ride.id w ≡ some ride
    → save (won_ride now profile vehicle ride) w ≡ some w'
    → IsWon profile vehicle ride.id (won_ride now profile vehicle ride) w'
unfolding enter_status
won_ride-IsWon now profile vehicle ride w w' there saved = record {
  is_matched = refl;
  has_driver = refl;
  has_vehicle = refl;
  is_stored = save-stores ride (won_ride now profile vehicle ride) w w' there saved;
}

transition-moves :
    (r : Ride) (t : RideStatus) (now : ℕ)
    → status_in t (allowed_transitions r.status) ≡ true
    → status_eq t r.status ≡ false
    → transition r t (some now) now none ≡ moved (enter_status r t now none)
unfolding transition
transition-moves r t now allowed other = ground arith

assign-eq :
    (now : ℕ) (profile : DriverProfile) (vehicle : Vehicle) (ride : Ride) (w : World)
    → ride.status ≡ requested
    → assign now profile vehicle ride w ≡ moved_ride (moved (won_ride now profile vehicle ride)) w
unfolding assign
assign-eq now profile vehicle ride w open_ =
    ap (λ x. moved_ride x w)
      (transition-moves (record ride { driver_id = some profile.id; vehicle_id = some vehicle.id })
        matched now (rw open_ refl) (rw open_ refl))

assign-IsWon :
    (now : ℕ) (profile : DriverProfile) (vehicle : Vehicle) (ride r : Ride) (w w' : World)
    → find_ride ride.id w ≡ some ride
    → ride.status ≡ requested
    → assign now profile vehicle ride w ≡ reply (r, w')
    → IsWon profile vehicle ride.id r w'
assign-IsWon now profile vehicle ride r w w' there open_ h =
    let (e, saved) =
      moved_ride-inv (won_ride now profile vehicle ride) r w w'
        (sym (assign-eq now profile vehicle ride w open_) ∙ h) in
    subst (λ x. IsWon profile vehicle ride.id x w') e
      (won_ride-IsWon now profile vehicle ride w w' there saved)

-- How an acceptance ends: with a ride of which `P` holds, or with the tables as they were.
abbrev pub Outcome : World → (Ride → World → Type 0) → Reply Ride × World → Type 0
Outcome w P (reply r, w') = P r w'
Outcome w P (failure e, w') = (w'.rides ≡ w.rides) × (w'.history ≡ w.history)

assigned-Outcome :
    (profile : DriverProfile) (vehicle : Vehicle) (i user_id : ℕ) (w : World)
    (outcome : Reply (Ride × World))
    → ((r : Ride) (v : World) → outcome ≡ reply (r, v) → IsWon profile vehicle i r v)
    → Outcome w (IsWon profile vehicle i) (assigned i user_id w outcome)
assigned-Outcome profile vehicle i user_id w (reply (r, v)) won =
    let h = won r v refl in
    record {
      is_matched = h.is_matched;
      has_driver = h.has_driver;
      has_vehicle = h.has_vehicle;
      is_stored = h.is_stored;
    }
assigned-Outcome profile vehicle i user_id w (failure integrity_error) won = (refl, refl)
assigned-Outcome profile vehicle i user_id w (failure invalid_transition) won = (refl, refl)
assigned-Outcome profile vehicle i user_id w (failure (api_error n c)) won = (refl, refl)

pub claim_and_assign-Outcome :
    (now : ℕ) (profile : DriverProfile) (vehicle : Vehicle) (user_id : ℕ) (ride : Ride) (w : World)
    → find_ride ride.id w ≡ some ride
    → ride.status ≡ requested
    → Outcome w
        (IsWon profile vehicle ride.id)
        (claim_and_assign now profile vehicle user_id ride w)
unfolding claim_and_assign
claim_and_assign-Outcome now profile vehicle user_id ride w there open_ =
    let w1 = record w { offers = (claim now ride.id user_id w.offers).1 } in
    elim (Bool-cases (claim now ride.id user_id w.offers).0) [
      | inl won ↦
          rw (won, claim_and_assign)
            (assigned-Outcome profile vehicle ride.id user_id w1
              (assign now profile vehicle ride w1)
              λ r v h. assign-IsWon now profile vehicle ride r w1 v there open_ h)
      | inr lost ↦ rw (lost, claim_and_assign) (refl, refl)
    ]
