-- ===== src/Dispatch/Claims.antt =====
-- Who gets a ride: the claim of app_base/modules/ride/infra/offer_store.py and `accept` of
-- app_base/modules/ride/application/matching_service.py.
use diddi_go_backend.Base.{
  ℕ, ◌≡◌, ◌+◌, refl, inl, inr, Bool, true, false, none, some, List, [], ◌∷◌, arith, Option-cases,
  if◌then◌else◌, ltb,
}
use diddi_go_backend.Dispatch.Offers.{OfferStore, claim}

-- The claims that a sequence of drivers makes on a ride, each at its moment.
abbrev pub claims_won : ℕ → List (ℕ × ℕ) → OfferStore → ℕ
claims_won ride_id [] st = 0
claims_won ride_id ((now, d) ∷ cs) st =
    let (won, st') = claim now ride_id d st in
    let rest = claims_won ride_id cs st' in if won then rest + 1 else rest

-- Every claim is made before a moment.
abbrev pub all_before : ℕ → List (ℕ × ℕ) → Bool
all_before t [] = true
all_before t ((now, d) ∷ cs) = if ltb now t then all_before t cs else false

-- the moment until which a claim is held
abbrev held_until : ℕ → ℕ → OfferStore → Bool
held_until t ride_id st = elim (st.claims ride_id) [
  | none ↦ false
  | some k ↦ if ltb k.expires_at t then false else true
]

held-lose :
    (t ride_id : ℕ) (cs : List (ℕ × ℕ)) (st : OfferStore)
    → held_until t ride_id st ≡ true
    → all_before t cs ≡ true
    → claims_won ride_id cs st ≡ 0
unfolding claim
held-lose t ride_id [] st held before = refl
held-lose t ride_id ((now, d) ∷ cs) st held before = elim (Option-cases (st.claims ride_id)) [
  | inl free ↦ ground arith
  | inr (k, taken) ↦ ground (arith, held-lose t ride_id cs st)
]

-- A ride that nobody has claimed goes to exactly one of the drivers who claim it, however many
-- they are, as long as all their claims come before the first one expires.
pub one_claim_wins :
    (ride_id now d : ℕ) (cs : List (ℕ × ℕ)) (st : OfferStore)
    → st.claims ride_id ≡ none
    → all_before (now + st.tried_ttl) cs ≡ true
    → claims_won ride_id ((now, d) ∷ cs) st ≡ 1
unfolding claim
one_claim_wins ride_id now d cs st free before =
    let others = held-lose (now + st.tried_ttl) ride_id cs (claim now ride_id d st).1 in
    ground arith
