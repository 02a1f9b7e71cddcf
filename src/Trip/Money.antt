-- ===== src/Trip/Money.antt =====
-- Rounding and the amounts of a ride in app_base/modules/ride/application/services.py:
-- `.quantize(Decimal("1"))`, the commission, the two waiting fees and `_supplement_amount`.
-- An amount is in hundredths of a franc; a moment is in microseconds.
use diddi_go_backend.Base.{
  ℕ, suc, ◌+◌, ◌-◌, ◌*◌, ◌/◌, ◌%◌, max, not, ◌||◌, Option, none, some, String, if◌then◌else◌, ◌==◌,
  ltb, str_eq,
}
use diddi_go_backend.Base.Int.{ℤ, pos, negsuc, ◌-ℤ◌}
use diddi_go_backend.Base.Transaction.{api_error, Result, ok, err}

-- `ROUND_HALF_EVEN` of `n / d`, the rounding of `Decimal.quantize`.
unfoldable pub half_even : (n d : ℕ) → ℕ
half_even n d =
    let q = n / d in
    let r = n % d in
    if ltb (2 * r) d then q else if ltb d (2 * r) then suc q else if q % 2 == 0 then q else suc q

-- the least whole number that is not below `n / d`
abbrev pub ceil_div : (n d : ℕ) → ℕ
ceil_div n d = (n + (d - 1)) / d

-- hundredths, of whole francs
abbrev pub francs : ℕ → ℕ
francs n = 100 * n

-- whole seconds, in microseconds
abbrev pub seconds : ℕ → ℕ
seconds n = 1000000 * n

-- `-` on amounts
abbrev pub negate : ℤ → ℤ
negate a = pos 0 -ℤ a

-- `(final_fare * commission_rate).quantize(Decimal("1"))`
unfoldable pub commission : ℤ → (rate : ℕ) → ℤ
commission (pos n) rate = pos (francs (half_even (n * rate) 1000000))
commission (negsuc n) rate = negate (pos (francs (half_even (suc n * rate) 1000000)))

-- `max(0, math.ceil((now - started_at).total_seconds()))`
unfoldable pub waited_seconds : (started now : ℕ) → ℕ
waited_seconds started now = ceil_div (now - started) (seconds 1)

-- `max(1, math.ceil(elapsed / 60))`
unfoldable pub billed_minutes : (elapsed : ℕ) → ℕ
billed_minutes elapsed = max 1 (ceil_div elapsed 60)

-- The fee of the wait before the ride: the billable seconds at a price by minute in whole francs.
unfoldable pub pre_ride_fee : (price elapsed free : ℕ) → ℕ
pre_ride_fee price elapsed free = francs (half_even (price * (elapsed - free)) 60)

-- `_SUPPLEMENT_FIXED_AMOUNTS`
abbrev pub fixed_amount : String → Option ℕ
fixed_amount type =
    if str_eq type "toll"
    then some (francs 500)
    else if str_eq type "parking"
    then some (francs 200)
    else if str_eq type "baggage_standard"
    then some (francs 500)
    else if str_eq type "baggage_large"
    then some (francs 1000)
    else none

-- `_SUPPLEMENT_OTHER_MAX`
abbrev pub other_max : ℕ
other_max = francs 1000

-- the amount of a type that the catalogue prices
unfoldable pub fixed_supplement : ℕ → Option ℤ → Result ℕ
fixed_supplement fixed none = ok fixed
fixed_supplement fixed (some (pos n)) =
    if n == fixed then ok fixed else err (api_error 422 "INVALID_SUPPLEMENT_AMOUNT")
fixed_supplement fixed (some (negsuc n)) = err (api_error 422 "INVALID_SUPPLEMENT_AMOUNT")

-- the amount of another fee
unfoldable pub other_supplement : Option ℤ → Result ℕ
other_supplement (some (pos n)) =
    if n == 0 || ltb other_max n then err (api_error 422 "INVALID_SUPPLEMENT_AMOUNT") else ok n
other_supplement (some (negsuc n)) = err (api_error 422 "INVALID_SUPPLEMENT_AMOUNT")
other_supplement none = err (api_error 422 "INVALID_SUPPLEMENT_AMOUNT")

-- `_supplement_amount`
unfoldable pub supplement_amount : String → Option ℤ → Result ℕ
supplement_amount type requested = elim (fixed_amount type) [
  | some fixed ↦ fixed_supplement fixed requested
  | none ↦
      if not (str_eq type "other")
      then err (api_error 422 "INVALID_SUPPLEMENT_TYPE")
      else other_supplement requested
]
