-- ===== src/Payment/Cash.antt =====
-- Payment in cash: `confirm_cash` and `_prepare_cash` of
-- app_base/modules/payment/application/services.py.
use diddi_go_backend.Base.{
  ℕ, ◌*◌, ◌+◌, max, Bool, true, false, not, Option, none, some, String, if◌then◌else◌, ltb, or_else,
}
use diddi_go_backend.Base.Int.{ℤ, pos, pos_part, neg_part, ◌-ℤ◌, eqb_ℤ}
use diddi_go_backend.Ride.Status.{completed, status_eq}
use diddi_go_backend.Ride.Entity.{Ride}
use diddi_go_backend.Wallet.Entities.{Transaction, PaymentStatus, PaymentMethod}
use diddi_go_backend.Wallet.Session.{
  Action, api_error, pure, raise, raise_if, ask, call, ◌>>=◌, ◌>>◌,
}
use diddi_go_backend.Payment.Transactions.{
  find_ride, find_by_ride_id, save, update_collected, prepare_cash_payment,
}
use diddi_go_backend.Payment.Provider.{is_terminal_failure}
use diddi_go_backend.Payment.Settlement.{Fresh, record_ride_settlement}

abbrev pub abs : ℤ → ℕ
abs a = pos_part a + neg_part a

-- `abs(amount - expected) > max(200, expected * 0.10)`, in tenths of a hundredth of a franc
abbrev pub is_out_of_tolerance : (amount expected : ℤ) → Bool
is_out_of_tolerance amount expected =
    ltb (max 200000 (pos_part expected)) (abs (amount -ℤ expected) * 10)

abbrev pub amount_mismatch : ℤ → Option ℤ → Bool
amount_mismatch amount none = false
amount_mismatch amount (some expected) = is_out_of_tolerance amount expected

-- A payment in cash as it is first made.
abbrev pub cash_payment : (id now ride_id : ℕ) → ℤ → String → Transaction
cash_payment id now ride_id amount currency = record {
  id = id;
  ride_id = ride_id;
  amount = amount;
  currency = currency;
  method = PaymentMethod.cash;
  status = PaymentStatus.pending;
  collected_by = none;
  collected_at = none;
  created_at = some now;
  payment_intent_id = none;
  business_reference = none;
  idempotency_key = none;
  provider_status = none;
  provider_next_action = none;
  paid_at = none;
}

-- the payment of the ride, made if there is none
unfoldable pub payment_or_new : ℕ → Transaction → Option Transaction → Action Transaction
payment_or_new now new none = call (save now new)
payment_or_new now new (some t) = pure t

-- `confirm_cash`, once the ride is read
unfoldable pub confirm_cash_of :
    Fresh → (payment_id now collected_by : ℕ) → ℤ → Option Ride → Action Transaction
confirm_cash_of fresh payment_id now collected_by amount none =
    raise (api_error 404 "RIDE_NOT_FOUND")
confirm_cash_of fresh payment_id now collected_by amount (some ride) = do
  raise_if (not (status_eq ride.status completed)) (api_error 409 "RIDE_NOT_COMPLETED")
  raise_if (amount_mismatch amount ride.final_fare) (api_error 422 "AMOUNT_MISMATCH")
  found ← call (find_by_ride_id ride.id)
  payment ← payment_or_new now (cash_payment payment_id now ride.id amount ride.currency) found
  collected ← call (update_collected payment.id collected_by amount now)
  record_ride_settlement fresh now ride collected.status
  pure collected

-- `confirm_cash`
unfoldable pub confirm_cash :
    Fresh → (payment_id now ride_id collected_by : ℕ) → ℤ → Action Transaction
confirm_cash fresh payment_id now ride_id collected_by amount = do
  ride ← ask (find_ride ride_id)
  confirm_cash_of fresh payment_id now collected_by amount ride

-- `a or b` on amounts: zero counts as missing
abbrev pub or_amount : Option ℤ → Option ℤ → Option ℤ
or_amount none b = b
or_amount (some a) b = if eqb_ℤ a (pos 0) then b else some a

-- `final_fare or estimated_fare or 0`
abbrev pub fare_or_zero : Ride → ℤ
fare_or_zero ride = or_else (or_amount ride.final_fare ride.estimated_fare) (pos 0)

abbrev pub is_cash : PaymentMethod → Bool
is_cash PaymentMethod.cash = true
is_cash _ = false

unfoldable pub new_cash_payment : (payment_id now : ℕ) → Option Ride → Action Transaction
new_cash_payment payment_id now none = raise (api_error 404 "RIDE_NOT_FOUND")
new_cash_payment payment_id now (some ride) =
    call (save now (cash_payment payment_id now ride.id (fare_or_zero ride) ride.currency))

-- `_prepare_cash`, once the payment of the ride is read
unfoldable pub cash_instead : (payment_id now ride_id : ℕ) → Option Transaction → Action Transaction
cash_instead payment_id now ride_id none = do
  ride ← ask (find_ride ride_id)
  new_cash_payment payment_id now ride
cash_instead payment_id now ride_id (some t) = if is_cash t.method then pure t else do
  raise_if (not (is_terminal_failure t.status)) (api_error 409 "PAYMENT_OPERATION_CONFLICT")
  call (prepare_cash_payment t.id)

-- `_prepare_cash`
unfoldable pub prepare_cash : (payment_id now ride_id : ℕ) → Action Transaction
prepare_cash payment_id now ride_id = do
  found ← call (find_by_ride_id ride_id)
  cash_instead payment_id now ride_id found
