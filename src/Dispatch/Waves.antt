-- ===== src/Dispatch/Waves.antt =====
-- What a new wave of offers is: `try_match` of
-- app_base/modules/ride/application/matching_service.py with the store of offers.
use diddi_go_backend.Base.{
  ℕ, ◌≡◌, ◌+◌, refl, inl, inr, ◌||◌, ◌&&◌, List, [], ◌∷◌, ◌++◌, arith, Bool-cases, if◌then◌else◌,
  ◌==◌, ltb, contains,
}
use diddi_go_backend.Dispatch.Offers.{
  OfferStore, add_members, current_offers, already_tried, open_offers,
}

contains-snoc : (u x : ℕ) (s : List ℕ) → contains u (s ++ x ∷ []) ≡ (contains u s || (u == x))
contains-snoc u x [] = ground arith
contains-snoc u x (y ∷ s) = ground (arith, contains-snoc u x s)

contains-add_members :
    (u : ℕ) (s xs : List ℕ) → contains u (add_members s xs) ≡ (contains u s || contains u xs)
contains-add_members u s [] = ground arith
contains-add_members u s (x ∷ xs) = elim (Bool-cases (contains x s)) [
  | inl there ↦ rw there (ground (arith, contains-add_members u s xs))
  | inr new ↦ rw new (ground (arith, contains-add_members u (s ++ x ∷ []) xs, contains-snoc u x s))
]

-- After a wave of drivers is opened on a ride, a driver holds an offer of a ride exactly if the
-- ride is this one, the time to live of the offers has not passed and the driver is of the wave,
-- or it is another one on which the driver held an offer; and a driver counts as tried for a ride exactly
-- if it is this one, the time to live of the tried drivers has not passed and the driver is of
-- the wave or was tried before, or it is another one for which the driver was tried.
pub open_offers-holds :
    (now i d : ℕ) (ds : List ℕ) (st : OfferStore) (t j u : ℕ)
    → let st' = open_offers now i (d ∷ ds) st in
      (contains u (current_offers t j st') ≡ (
        if j == i
        then ltb t (now + st.offer_ttl) && contains u (d ∷ ds)
        else contains u (current_offers t j st)))
      × (contains u (already_tried t j st') ≡ (
          if j == i
          then ltb t (now + st.tried_ttl)
            && (contains u (already_tried now i st) || contains u (d ∷ ds))
          else contains u (already_tried t j st)))
unfolding open_offers
open_offers-holds now i d ds st t j u =
    let fresh = contains-add_members u [] (d ∷ ds) in
    let joined = contains-add_members u (already_tried now i st) (d ∷ ds) in
    elim (Bool-cases (j == i)) [
      | inl this ↦ (rw this (ground arith), rw this (ground arith))
      | inr other ↦ (rw other refl, rw other refl)
    ]
