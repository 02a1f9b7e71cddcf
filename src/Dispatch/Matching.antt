-- ===== src/Dispatch/Matching.antt =====
-- `try_match`, `decline` and `advance_expired_offer` of
-- app_base/modules/ride/application/matching_service.py.
use diddi_go_backend.Base.{
  ℕ, ◌-◌, ◌*◌, Bool, true, false, not, ◌&&◌, ◌||◌, Option, none, some, List, [], ◌∷◌, if◌then◌else◌,
  ◌==◌, ltb, contains,
}
use diddi_go_backend.Base.Int.{ℤ, pos, ltb_ℤ}
use diddi_go_backend.Ride.Status.{requested, status_eq}
use diddi_go_backend.Ride.Entity.{Ride}
use diddi_go_backend.Dispatch.Offers.{
  current_offers, already_tried, open_offers, decline_offer, is_nonempty,
}
use diddi_go_backend.Dispatch.Fleet.{Fleet}
use diddi_go_backend.Dispatch.Ranking.{Estimates}
use diddi_go_backend.Dispatch.Candidates.{DispatchConfig, next_candidates}
use diddi_go_backend.Dispatch.World.{
  MatchingDispatch, api_error, Reply, reply, failure, World, find_ride, give_up, load_active_ride,
}

abbrev pub waves_of : Bool → List ℕ → MatchingDispatch
waves_of new ds = record { driver_user_ids = ds; new_wave = new; no_driver_found = false }

module _ (cfg : DispatchConfig) (fleet : Fleet) (est : Estimates) (nearby : ℕ → ℕ → List ℕ)
    (max_commission : ℤ) where
  -- `_search_budget_exceeded`
  abbrev pub search_budget_exceeded : ℕ → Option ℕ → Bool
  search_budget_exceeded now none = false
  search_budget_exceeded now (some started) =
      not (cfg.search_budget_seconds == 0)
      && ltb (cfg.search_budget_seconds * 1000000) (now - started)

  abbrev pub commission_too_high : Option ℤ → Bool
  commission_too_high none = false
  commission_too_high (some c) = ltb_ℤ (pos 0) max_commission && ltb_ℤ max_commission c

  -- `try_match`
  unfoldable pub try_match : ℕ → Ride → World → Reply MatchingDispatch × World
  try_match now ride w =
      if not (status_eq ride.status requested)
      then (reply (waves_of false []), w)
      else if search_budget_exceeded now ride.requested_at
          || commission_too_high ride.platform_commission
      then give_up now ride w
      else elim (current_offers now ride.id w.offers) [
        | d ∷ ds ↦ (reply (waves_of false (d ∷ ds)), w)
        | [] ↦
            elim (next_candidates cfg fleet est nearby (already_tried now ride.id w.offers) ride) [
              | [] ↦ give_up now ride w
              | c ∷ cs ↦ (
                reply (waves_of true (c ∷ cs)),
                record w { offers = open_offers now ride.id (c ∷ cs) w.offers },
              )
            ]
      ]

  -- `decline`, once the ride is loaded
  unfoldable pub decline_loaded : ℕ → ℕ → Ride → World → Reply MatchingDispatch × World
  decline_loaded now user_id ride w =
      let holders = current_offers now ride.id w.offers in
      let (still, offers') = decline_offer now ride.id user_id w.offers in
      let w' = record w { offers = offers' } in
      if is_nonempty holders && not (contains user_id holders)
      then (failure (api_error 403 "OFFER_NOT_YOURS"), w)
      else if still
      then (reply (waves_of false (current_offers now ride.id offers')), w')
      else try_match now ride w'

  -- `decline`
  unfoldable pub decline : (now ride_id user_id : ℕ) → World → Reply MatchingDispatch × World
  decline now ride_id user_id w = elim (load_active_ride ride_id w) [
    | failure e ↦ (failure e, w)
    | reply ride ↦ decline_loaded now user_id ride w
  ]

  -- `advance_expired_offer`
  unfoldable pub advance_expired_offer : (now ride_id : ℕ) → World → Reply MatchingDispatch × World
  advance_expired_offer now ride_id w = elim (current_offers now ride_id w.offers) [
    | d ∷ ds ↦ (reply (waves_of false (d ∷ ds)), w)
    | [] ↦ elim (find_ride ride_id w) [
      | none ↦ (reply (waves_of false []), w)
      | some ride ↦
          if not (status_eq ride.status requested)
          then (reply (waves_of false []), w)
          else try_match now ride w
    ]
  ]
