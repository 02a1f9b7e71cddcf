-- ===== src/Dispatch/Tests.antt =====
-- A ride that is offered to two drivers, and the theorems on matching at it.
use diddi_go_backend.Base.{
  All, ltb, ◌+◌, ◌&&◌, ◌||◌, ℕ, ◌≡◌, ◌≤◌, ◌/◌, refl, true, false, Option, none, some, List, [], ◌∷◌,
  length, contains, ◌==◌, if◌then◌else◌,
}
use diddi_go_backend.Base.Int.{pos, ◌-ℤ◌, ◌*ℤ◌}
use diddi_go_backend.Ride.Status.{VehicleCategory, ComfortLevel, active}
use diddi_go_backend.Ride.Entity.{Ride, new_ride, transition}
use diddi_go_backend.Dispatch.Offers.{
  open_offers, current_offers, already_tried, OfferStore, put, claim,
}
use diddi_go_backend.Dispatch.Fleet.{Fleet, DriverProfile, Vehicle}
use diddi_go_backend.Dispatch.Ranking.{Estimates, rank_by_eta}
use diddi_go_backend.Dispatch.Candidates.{DispatchConfig, radius, next_candidates}
use diddi_go_backend.Dispatch.World.{World, load_active_ride, Reply, reply, failure, api_error}
use diddi_go_backend.Dispatch.Acceptance.{accept, accept_loaded, claim_and_assign, assign}
use diddi_go_backend.Dispatch.Selection.{
  occurrences, rank_by_eta-occurrences, IsFit, next_candidates-IsFit,
}
use diddi_go_backend.Dispatch.Waves.{open_offers-holds}
use diddi_go_backend.Dispatch.Claims.{claims_won, one_claim_wins}
use diddi_go_backend.Dispatch.Won.{Outcome}
use diddi_go_backend.Dispatch.Accepted.{IsAccepted, accept-Outcome, accepted_once}

abbrev call_out : Ride
call_out = record (new_ride 5 1) { pickup_location = some 3 }

-- Users 100 and 101 drive, with the profiles 0 and 1.
abbrev profiles : ℕ → Option DriverProfile
profiles u =
    if u == 100
    then some (record { id = 0; user_id = 100; status = active; is_review_account = false })
    else if u == 101
    then some (record { id = 1; user_id = 101; status = active; is_review_account = false })
    else none

abbrev car : ℕ → Option Vehicle
car p =
    some
      (record { id = p; category = VehicleCategory.standard; comfort_level = ComfortLevel.comfort })

abbrev fleet : Fleet
fleet = record {
  profile_of = profiles;
  vehicle_of = car;
  blocked = λ p. false;
  balance = λ p. none;
  min_balance = pos 0;
}

abbrev offers : OfferStore
offers = record {
  offer_ttl = 15;
  tried_ttl = 900;
  waves = put 5 (some (record { value = 100 ∷ 101 ∷ []; expires_at = 20 })) (λ i. none);
  tried = put 5 (some (record { value = 100 ∷ 101 ∷ []; expires_at = 900 })) (λ i. none);
  claims = λ i. none;
}

abbrev city : World
city = record { rides = call_out ∷ []; history = []; offers = offers; available = λ u. true }

-- User 101 is nearer in time; user 100 has the better record.
abbrev seconds_to : ℕ → Option ℕ
seconds_to u = if u == 100 then some 300 else if u == 101 then some 200 else none

abbrev estimates : Estimates
estimates = record {
  ranking_enabled = true;
  positions_known = true;
  eta = seconds_to;
  points = λ u. if u == 100 then some (pos 50) else none;
  priority_cap_seconds = pos 120;
  priority_seconds_per_point = pos 3;
}

abbrev config : DispatchConfig
config = record {
  search_radius = 3000;
  search_radius_step = 1000;
  search_radius_max = 8000;
  offer_wave_size = 2;
  search_budget_seconds = 300;
  eta_shortlist_size = 4;
}

abbrev around : ℕ → ℕ → List ℕ
around place within = 102 ∷ 101 ∷ 100 ∷ []

-- The cap of the bonus is longer than the lead, so the farther driver comes first.
capped_bonus_outranks : rank_by_eta estimates true (101 ∷ 100 ∷ []) ≡ 100 ∷ 101 ∷ []
unfolding rank_by_eta ◌-ℤ◌ ◌*ℤ◌
capped_bonus_outranks = refl

rank_by_eta-occurrences_example :
    occurrences 101 (rank_by_eta estimates true (101 ∷ 100 ∷ [])) ≡ occurrences 101 (101 ∷ 100 ∷ [])
rank_by_eta-occurrences_example = rank_by_eta-occurrences estimates true (101 ∷ 100 ∷ []) 101

next_candidates-IsFit_example :
    (length (next_candidates config fleet estimates around [] call_out) ≤ 2)
    × All
        (IsFit fleet call_out [] (around 3 (radius config (0 / 2))))
        (next_candidates config fleet estimates around [] call_out)
next_candidates-IsFit_example =
    next_candidates-IsFit config fleet estimates around [] call_out 3 refl

open_offers-holds_example :
    let st' = open_offers 30 5 (102 ∷ []) offers in
    (contains 102 (current_offers 40 5 st') ≡ (
      if 5 == 5
      then ltb 40 (30 + 15) && contains 102 (102 ∷ [])
      else contains 102 (current_offers 40 5 offers)))
    × (contains 102 (already_tried 40 5 st') ≡ (
        if 5 == 5
        then ltb 40 (30 + 900)
          && (contains 102 (already_tried 30 5 offers) || contains 102 (102 ∷ []))
        else contains 102 (already_tried 40 5 offers)))
open_offers-holds_example = open_offers-holds 30 5 102 [] offers 40 5 102

one_claim_wins_example : claims_won 5 ((10, 100) ∷ (10, 101) ∷ (11, 100) ∷ []) offers ≡ 1
one_claim_wins_example = one_claim_wins 5 10 100 ((10, 101) ∷ (11, 100) ∷ []) offers refl refl

accept-Outcome_example : Outcome city (IsAccepted fleet 10 5 100 city) (accept fleet 10 5 100 city)
accept-Outcome_example = accept-Outcome fleet 10 5 100 city

abbrev or_ride : Reply Ride → Ride → Ride
or_ride (reply r) d = r
or_ride (failure e) d = d

abbrev taken : Ride
taken = or_ride (accept fleet 10 5 100 city).0 call_out

accepted_once_example :
    let w' = (accept fleet 10 5 100 city).1 in
    accept fleet 12 5 101 w' ≡ (failure (api_error 409 "RIDE_ALREADY_MATCHED"), w')
unfolding accept load_active_ride new_ride accept_loaded claim_and_assign claim assign transition
accepted_once_example =
    accepted_once fleet fleet 10 12 5 100 101 city (accept fleet 10 5 100 city).1 taken refl
