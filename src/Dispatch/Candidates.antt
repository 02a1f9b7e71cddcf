-- ===== src/Dispatch/Candidates.antt =====
-- The next wave: `_next_candidates` of app_base/modules/ride/application/matching_service.py.
-- Distances are metres. `nearby` is what the location service answers for a place, a radius and a limit.
use diddi_go_backend.Base.{
  ℕ, ◌+◌, ◌*◌, ◌/◌, max, min, ◌-◌, leb, true, none, some, List, [], ◌∷◌, if◌then◌else◌, take,
  length, contains,
}
use diddi_go_backend.Ride.Entity.{Ride}
use diddi_go_backend.Dispatch.Fleet.{Fleet, can_take_ride}
use diddi_go_backend.Dispatch.Ranking.{Estimates, rank_by_eta}

-- The tunables of `DispatchConfig` that the search reads.
pub record DispatchConfig : Type 0 where
  pub search_radius : ℕ
  pub search_radius_step : ℕ
  pub search_radius_max : ℕ
  pub offer_wave_size : ℕ
  pub search_budget_seconds : ℕ
  pub eta_shortlist_size : ℕ

abbrev pub radius : DispatchConfig → ℕ → ℕ
radius cfg wave_number =
    min (cfg.search_radius + cfg.search_radius_step * wave_number) cfg.search_radius_max

-- The loop over the drivers nearby. The length is tested after an append, so at least one
-- driver is taken if one can take the ride; `room` counts down the places left.
abbrev pub shortlist : Fleet → Ride → List ℕ → ℕ → List ℕ → List ℕ
shortlist fleet ride tried room [] = []
shortlist fleet ride tried room (u ∷ us) =
    if contains u tried
    then shortlist fleet ride tried room us
    else if can_take_ride fleet u ride
    then u ∷ (if leb room 1 then [] else shortlist fleet ride tried (room - 1) us)
    else shortlist fleet ride tried room us

unfoldable pub next_candidates :
    DispatchConfig → Fleet → Estimates → (ℕ → ℕ → List ℕ) → List ℕ → Ride → List ℕ
next_candidates cfg fleet est nearby tried ride = elim ride.pickup_location [
  | none ↦ []
  | some place ↦
      let wave_number = length tried / cfg.offer_wave_size in
      let found = nearby place (radius cfg wave_number) in
      let size = max cfg.offer_wave_size cfg.eta_shortlist_size in
      take cfg.offer_wave_size (rank_by_eta est true (shortlist fleet ride tried size found))
]
