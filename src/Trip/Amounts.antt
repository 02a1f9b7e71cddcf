-- ===== src/Trip/Amounts.antt =====
-- What the rounding and the fees of a ride come to: `.quantize(Decimal("1"))`, the waiting fees,
-- the catalogue of supplements and the shares of a fare
-- (app_base/modules/ride/application/services.py).
use diddi_go_backend.Base.{
  ℕ, suc, ◌+◌, ◌-◌, ◌*◌, ◌/◌, ◌%◌, ◌≤◌, ◌<◌, ◌≡◌, refl, ◌⊎◌, inl, inr, Option, some, or_else,
  String, arith,
}
use native.Mathlib.Nat.{div-add-mod, mod-lt}
use diddi_go_backend.Base.Int.{ℤ, pos, ◌+ℤ◌, ◌-ℤ◌}
use diddi_go_backend.Ride.Entity.{Ride}
use diddi_go_backend.Trip.Entities.{Trip}
use diddi_go_backend.Trip.Pricing.{or_fare, extras, shared_fare, complete_fare}
use diddi_go_backend.Base.Transaction.{ok}
use diddi_go_backend.Trip.Money.{
  half_even, commission, seconds, francs, waited_seconds, billed_minutes, supplement_amount,
  fixed_supplement, other_supplement,
}

-- A quotient is rounded down where its remainder is at most half of the divisor, and else up.
half_even-cases :
    (n d : ℕ)
    → ((half_even n d ≡ n / d) × (2 * (n % d) ≤ d))
      ⊎ ((half_even n d ≡ suc (n / d)) × (d ≤ 2 * (n % d)))
unfolding half_even
half_even-cases n d = ground arith

-- Rounded, a quotient by a positive number is a whole number at a distance of one half at most.
half_even_nearest :
    (n d : ℕ)
    → 0 < d
    → (2 * n ≤ 2 * (half_even n d * d) + d) × (2 * (half_even n d * d) ≤ 2 * n + d)
half_even_nearest n d h =
    let whole = div-add-mod n d in
    let rest : n % d < d = mod-lt n h in
    elim (half_even-cases n d) [
      | inl (down, small) ↦ rw down (omega (arith, whole, rest, small))
      | inr (up, large) ↦ rw up (omega (arith, whole, rest, large))
    ]

pos-add : (a b : ℕ) → pos a +ℤ pos b ≡ pos (a + b)
unfolding ◌+ℤ◌
pos-add a b = ground arith

-- How a ride, fixed at a base fare in hundredths, shares it: `whole` francs are the platform's.
pub record IsShared (t : Trip) (base : ℕ) (r : Ride) : Type 0 where
  pub whole : ℕ
  pub fare : r.final_fare ≡ some (pos (base + extras t))
  pub kept : r.platform_commission ≡ some (pos (francs whole))
  pub paid : r.driver_payout_estimate ≡ some (pos (base + extras t) -ℤ pos (francs whole))
  -- the rate is in ten-thousandths
  pub not_less : 2 * ((base + extras t) * t.commission_rate) ≤ 2 * (whole * 1000000) + 1000000
  pub not_more : 2 * (whole * 1000000) ≤ 2 * ((base + extras t) * t.commission_rate) + 1000000

-- Completing a ride whose final fare so far, or else its estimate, or else zero, is not negative
-- adds the fees of the waits and the supplements to it; the platform's commission is a whole
-- number of francs at most half a franc away from that fare times the rate of the ride, and the
-- driver's payout is the rest of the fare.
pub completed_shares :
    (t : Trip) (base : ℕ)
    → or_else (or_fare t.ride.final_fare t.ride.estimated_fare) (pos 0) ≡ pos base
    → IsShared t base (complete_fare t).ride
unfolding complete_fare shared_fare commission
completed_shares t base h =
    let n = (base + extras t) * t.commission_rate in
    let (not_less, not_more) = half_even_nearest n 1000000 (omega arith) in
    rw (h, pos-add base (extras t))
      (record {
        whole = half_even n 1000000;
        fare = refl;
        kept = refl;
        paid = refl;
        not_less = not_less;
        not_more = not_more;
      })

-- A wait that does not end before it starts is billed by the minute begun: at least one minute is
-- billed, the billed minutes cover the wait, and where more than one is billed, they exceed the
-- wait by less than a minute.
pub billed_wait :
    (started now : ℕ)
    → started ≤ now
    → let billed = billed_minutes (waited_seconds started now) in
      (1 ≤ billed)
      × ((now - started ≤ seconds 60 * billed)
          × ((billed ≡ 1) ⊎ (seconds 60 * billed < now - started + seconds 60)))
unfolding waited_seconds billed_minutes
billed_wait started now h = omega arith

-- Whatever a driver asks for, the amount of a supplement is more than zero and at most 1000 francs.
pub supplement_bounds :
    (type : String) (requested : Option ℤ) (amount : ℕ)
    → supplement_amount type requested ≡ ok amount
    → (1 ≤ amount) × (amount ≤ francs 1000)
unfolding supplement_amount fixed_supplement other_supplement
supplement_bounds type requested amount h = ground arith
