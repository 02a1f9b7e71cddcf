-- ===== src/Dispatch/Selection.antt =====
-- Who is in a wave (`_next_candidates` and `_rank_by_eta` of
-- app_base/modules/ride/application/matching_service.py).
use diddi_go_backend.Base.{
  All, ℕ, zero, suc, ◌≡◌, ◌≤◌, ◌+◌, ◌-◌, ◌/◌, max, refl, inl, inr, Bool, true, false, some, List,
  [], ◌∷◌, ◌++◌, arith, Option-cases, if◌then◌else◌, ◌==◌, leb, take, length, contains,
  length-take_le, sym, ap, ◌∙◌,
}
use diddi_go_backend.Ride.Entity.{Ride}
use diddi_go_backend.Dispatch.Fleet.{Fleet, can_take_ride}
use diddi_go_backend.Dispatch.Ranking.{
  Estimates, Timed, timed, untimed, insert, sort, users, rank_by_eta,
}
use diddi_go_backend.Dispatch.Candidates.{DispatchConfig, radius, shortlist, next_candidates}

-- How often a driver is in a list.
abbrev pub occurrences : ℕ → List ℕ → ℕ
occurrences u [] = 0
occurrences u (x ∷ xs) = if u == x then occurrences u xs + 1 else occurrences u xs

occurrences-append :
    (u : ℕ) (xs ys : List ℕ) → occurrences u (xs ++ ys) ≡ occurrences u xs + occurrences u ys
occurrences-append u [] ys = omega arith
occurrences-append u (x ∷ xs) ys = ground (arith, occurrences-append u xs ys)

occurrences-insert :
    (u : ℕ) (est : Estimates) (t : Timed) (ts : List Timed)
    → occurrences u (users (insert est t ts)) ≡ occurrences u (t.user_id ∷ users ts)
occurrences-insert u est t [] = refl
occurrences-insert u est t (v ∷ ts) = ground (arith, occurrences-insert u est t ts)

occurrences-sort :
    (u : ℕ) (est : Estimates) (ts : List Timed)
    → occurrences u (users (sort est ts)) ≡ occurrences u (users ts)
occurrences-sort u est [] = refl
occurrences-sort u est (t ∷ ts) =
    rw (occurrences-insert u est t (sort est ts), occurrences-sort u est ts)

occurrences-split :
    (u : ℕ) (est : Estimates) (us : List ℕ)
    → occurrences u (users (timed est us)) + occurrences u (untimed est us) ≡ occurrences u us
occurrences-split u est [] = refl
occurrences-split u est (v ∷ us) = elim (Option-cases (est.eta v)) [
  | inl missing ↦ rw missing (ground (arith, occurrences-split u est us))
  | inr (t, known) ↦ rw known (ground (arith, occurrences-split u est us))
]

-- The ranking puts the shortlist in another order and does nothing else: every driver is in it as
-- often as in the shortlist, whatever the estimates and the bonuses.
pub rank_by_eta-occurrences :
    (est : Estimates) (has_pickup : Bool) (us : List ℕ) (u : ℕ)
    → occurrences u (rank_by_eta est has_pickup us) ≡ occurrences u us
unfolding rank_by_eta
rank_by_eta-occurrences est has_pickup us u =
    let whole = occurrences-append u (users (sort est (timed est us))) (untimed est us) in
    let same = occurrences-sort u est (timed est us) in
    let split = occurrences-split u est us in ground arith

contains-occurrences : (u : ℕ) (xs : List ℕ) → contains u xs ≡ leb 1 (occurrences u xs)
contains-occurrences u [] = refl
contains-occurrences u (x ∷ xs) = ground (arith, contains-occurrences u xs)

contains-take : (u n : ℕ) (xs : List ℕ) → contains u (take n xs) ≡ true → contains u xs ≡ true
contains-take u zero xs h = cc
contains-take u (suc n) [] h = cc
contains-take u (suc n) (x ∷ xs) h = ground (arith, contains-take u n xs)

contains-All : (P : ℕ → Type 0) (xs : List ℕ) → ((u : ℕ) → contains u xs ≡ true → P u) → All P xs
contains-All P [] h = tt
contains-All P (x ∷ xs) h = (h x (ground arith), contains-All P xs λ u there. h u (ground arith))

-- What makes a driver fit for the wave of a ride.
pub record IsFit (fleet : Fleet) (ride : Ride) (tried found : List ℕ) (u : ℕ) : Type 0 where
  pub is_near : contains u found ≡ true
  pub is_new : contains u tried ≡ false
  pub is_able : can_take_ride fleet u ride ≡ true

shortlist-IsFit :
    (fleet : Fleet) (ride : Ride) (tried : List ℕ) (room : ℕ) (us : List ℕ) (u : ℕ)
    → contains u (shortlist fleet ride tried room us) ≡ true
    → IsFit fleet ride tried us u
shortlist-IsFit fleet ride tried room [] u h = cc
shortlist-IsFit fleet ride tried room (v ∷ us) u h =
    let stay = shortlist-IsFit fleet ride tried room us u in
    let next = shortlist-IsFit fleet ride tried (room - 1) us u in ground arith

module _ (cfg : DispatchConfig) (fleet : Fleet) (est : Estimates) (nearby : ℕ → ℕ → List ℕ)
    (tried : List ℕ) (ride : Ride) where
  next_candidates-eq :
      (place : ℕ)
      → ride.pickup_location ≡ some place
      → next_candidates cfg fleet est nearby tried ride
        ≡ take cfg.offer_wave_size (
            rank_by_eta est true (
              shortlist fleet ride tried
                (max cfg.offer_wave_size cfg.eta_shortlist_size)
                (nearby place (radius cfg (length tried / cfg.offer_wave_size)))))
  unfolding next_candidates
  next_candidates-eq place h = ground arith

  -- For a ride with a place of pickup, a wave has at most `offer_wave_size` drivers, and every
  -- one of them is among those found within the radius of the wave, was not tried for the ride
  -- before, and can take it.
  pub next_candidates-IsFit :
      (place : ℕ)
      → ride.pickup_location ≡ some place
      → (length (next_candidates cfg fleet est nearby tried ride) ≤ cfg.offer_wave_size)
        × All
            (IsFit fleet ride tried
              (nearby place (radius cfg (length tried / cfg.offer_wave_size))))
            (next_candidates cfg fleet est nearby tried ride)
  next_candidates-IsFit place h =
      let found = nearby place (radius cfg (length tried / cfg.offer_wave_size)) in
      let size = max cfg.offer_wave_size cfg.eta_shortlist_size in
      let fit = shortlist fleet ride tried size found in
      rw (next_candidates-eq place h) (
        length-take_le cfg.offer_wave_size (rank_by_eta est true fit),
        contains-All (IsFit fleet ride tried found)
            (take cfg.offer_wave_size (rank_by_eta est true fit))
            λ u there. shortlist-IsFit fleet ride tried size found u (
              contains-occurrences u fit
              ∙ sym (ap (leb 1) (rank_by_eta-occurrences est true fit u))
              ∙ sym (contains-occurrences u (rank_by_eta est true fit))
              ∙ contains-take u cfg.offer_wave_size (rank_by_eta est true fit) there),
      )
