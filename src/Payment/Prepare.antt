-- ===== src/Payment/Prepare.antt =====
-- Payment through the provider: `prepare_payment`, `_prepare_diddipay` and
-- `prepare_passenger_debt_payment` of app_base/modules/payment/application/services.py. The
-- provider's answer is an argument, the return context (a Redis key for the page that the payer
-- comes back to) and the fields that are only sent to the provider are left out.
use Prim.Native.String.{◌++◌ as text_append}
use diddi_go_backend.Base.{
  ℕ, Bool, true, false, not, ◌&&◌, ◌||◌, Option, none, some, String, if◌then◌else◌, ◌==◌, str_eq,
  is_some,
}
use diddi_go_backend.Base.Int.{ℤ, pos, ◌*ℤ◌, eqb_ℤ, leb_ℤ}
use diddi_go_backend.Ride.Status as RideEnums
use diddi_go_backend.Ride.Status.{completed, status_eq}
use diddi_go_backend.Ride.Entity.{Ride}
use diddi_go_backend.Wallet.Entities.{
  Transaction, PaymentStatus, PaymentMethod, mobile_money_pending,
}
use diddi_go_backend.Wallet.Session.{
  Action, api_error, pure, raise, raise_if, lift, ask, call, ◌>>=◌, ◌>>◌,
}
use diddi_go_backend.Wallet.Service.{Externals, require_id, is_empty}
use diddi_go_backend.Payment.Transactions.{
  find_ride, find_by_ride_id, save, replace_external_intent,
}
use diddi_go_backend.Payment.Debts.{owned_open_debt, update_debt_status}
use diddi_go_backend.Payment.Provider.{
  Intent, payment_status_from_diddipay, status_value, is_succeeded, is_terminal_failure,
}
use diddi_go_backend.Payment.Cash.{or_amount, is_cash, prepare_cash}

-- What `create_payment_intent` answers.
pub data IntentAnswer : Type 0 where
  intent : Intent → IntentAnswer
  refused : (status_code : ℕ) → String → IntentAnswer

-- The functions on texts: `strip().lower()`, and the digits of a phone number.
pub record Texts : Type 0 where
  pub normalize : String → String
  pub digits : String → String

unfoldable pub answered : IntentAnswer → Action Intent
answered (intent i) = pure i
answered (refused status_code code) = raise (api_error status_code code)

-- `text or default`, where the empty text counts as missing
abbrev pub text_or : Option String → String → String
text_or none d = d
text_or (some t) d = if is_empty t then d else t

-- `Decimal(str(intent.get("amount") or amount))`: the provider counts whole francs
abbrev pub intent_amount : Option ℤ → ℤ → ℤ
intent_amount none amount = amount
intent_amount (some a) amount = if eqb_ℤ a (pos 0) then amount else a *ℤ pos 100

-- The payment of the ride that can be tried again.
abbrev pub can_retry : Transaction → Bool
can_retry t = is_some t.payment_intent_id && is_terminal_failure t.status

-- `PaymentMethod(method)`
abbrev pub method_of : String → Option PaymentMethod
method_of s =
    if str_eq s "cash"
    then some PaymentMethod.cash
    else if str_eq s "mobile_money"
    then some PaymentMethod.mobile_money
    else if str_eq s "wave"
    then some PaymentMethod.wave
    else if str_eq s "diddipay"
    then some PaymentMethod.diddipay
    else none

-- `ride.payment_method.value != payment_method.value`
abbrev pub method_differs : RideEnums.PaymentMethod → PaymentMethod → Bool
method_differs RideEnums.PaymentMethod.cash PaymentMethod.cash = false
method_differs RideEnums.PaymentMethod.mobile_money PaymentMethod.mobile_money = false
method_differs _ _ = true

abbrev pub is_mobile_money : PaymentMethod → Bool
is_mobile_money PaymentMethod.mobile_money = true
is_mobile_money _ = false

abbrev pub known_network : Option String → Bool
known_network none = false
known_network (some n) = str_eq n "orange" || str_eq n "wave" || str_eq n "mtn" || str_eq n "moov"

-- No address to send the receipt to: an address made of the phone's digits stands in for one.
abbrev pub has_no_email : Option String → Option String → Bool
has_no_email email phone = is_empty (text_or email "") && is_empty (text_or phone "")

abbrev pub has_no_fare : Option ℤ → Bool
has_no_fare none = true
has_no_fare (some fare) = leb_ℤ fare (pos 0)

-- The arguments of `prepare_payment`.
pub record PaymentRequest : Type 0 where
  pub ride_id : ℕ
  pub method : String
  pub payer_user_id : ℕ
  pub customer_email : Option String
  pub customer_phone : Option String
  pub mobile_money_network : Option String

module _ (ext : Externals) (texts : Texts) where
  abbrev pub ride_reference : ℕ → String
  ride_reference ride_id = text_append "diddigo:ride:" (ext.uuid_text ride_id)

  abbrev pub first_key : ℕ → String
  first_key ride_id = text_append (ride_reference ride_id) ":collection:v1"

  abbrev pub retry_key : ℕ → Option ℕ → String
  retry_key ride_id none = text_append (ride_reference ride_id) ":collection:retry:None"
  retry_key ride_id (some i) =
      text_append (text_append (ride_reference ride_id) ":collection:retry:") (ext.uuid_text i)

  -- The row of a first payment through the provider.
  abbrev pub external_payment :
      (id now : ℕ) → Ride → ℤ → PaymentMethod → Intent → PaymentStatus → ℕ → Transaction
  external_payment id now ride amount method i status intent_id = record {
    id = id;
    ride_id = ride.id;
    amount = intent_amount i.amount amount;
    currency = text_or i.currency ride.currency;
    method = method;
    status = status;
    collected_by = none;
    collected_at = none;
    created_at = some now;
    payment_intent_id = some intent_id;
    business_reference = some (ride_reference ride.id);
    idempotency_key = some (first_key ride.id);
    provider_status = some (text_or i.status (status_value status));
    provider_next_action = i.next_action;
    paid_at = if is_succeeded status then some now else none;
  }

  -- What follows the provider's answer: the row is made, or the failed one is given the new intent.
  unfoldable pub keep_intent :
      (id now : ℕ) → Ride → ℤ → PaymentMethod → Option Transaction → Intent → Action Transaction
  keep_intent id now ride amount method none i = do
    status ←
        lift (payment_status_from_diddipay texts.normalize (text_or i.status "requires_action"))
    intent_id ← require_id i.id
    call (save now (external_payment id now ride amount method i status intent_id))
  keep_intent id now ride amount method (some t) i = do
    status ←
        lift (payment_status_from_diddipay texts.normalize (text_or i.status "requires_action"))
    intent_id ← require_id i.id
    call (
        replace_external_intent t.id intent_id (retry_key ride.id t.payment_intent_id) method status
          (text_or i.status (status_value status)) i.next_action)

  -- `_prepare_diddipay`, once the amount and the payment of the ride are known
  unfoldable pub pay_or_reuse :
      (id now : ℕ)
      → Ride
      → ℤ
      → PaymentMethod
      → IntentAnswer
      → Option Transaction
      → Action Transaction
  pay_or_reuse id now ride amount method answer none = do
    i ← answered answer
    keep_intent id now ride amount method none i
  pay_or_reuse id now ride amount method answer (some t) =
      if can_retry t
      then (answered answer >>= keep_intent id now ride amount method (some t))
      else if is_some t.payment_intent_id
      then pure t
      else raise (api_error 409 "PAYMENT_OPERATION_CONFLICT")

  unfoldable pub pay_amount :
      (id now : ℕ) → Ride → Option ℤ → PaymentMethod → IntentAnswer → Action Transaction
  pay_amount id now ride none method answer = raise (api_error 409 "PAYMENT_OPERATION_CONFLICT")
  pay_amount id now ride (some amount) method answer = do
    raise_if (leb_ℤ amount (pos 0)) (api_error 409 "PAYMENT_OPERATION_CONFLICT")
    found ← call (find_by_ride_id ride.id)
    pay_or_reuse id now ride amount method answer found

  -- `_prepare_diddipay`, once the ride is read
  unfoldable pub prepare_diddipay_of :
      (id now : ℕ) → PaymentMethod → IntentAnswer → Option Ride → Action Transaction
  prepare_diddipay_of id now method answer none = raise (api_error 404 "RIDE_NOT_FOUND")
  prepare_diddipay_of id now method answer (some ride) =
      pay_amount id now ride (or_amount ride.final_fare ride.estimated_fare) method answer

  -- `_prepare_diddipay`
  unfoldable pub prepare_diddipay :
      (id now ride_id : ℕ) → PaymentMethod → IntentAnswer → Action Transaction
  prepare_diddipay id now ride_id method answer = do
    ride ← ask (find_ride ride_id)
    prepare_diddipay_of id now method answer ride

  unfoldable pub prepare_with :
      (id now : ℕ)
      → PaymentRequest
      → Ride
      → IntentAnswer
      → Option PaymentMethod
      → Action Transaction
  prepare_with id now r ride answer none = raise (api_error 422 "INVALID_PAYMENT_METHOD")
  prepare_with id now r ride answer (some method) =
      if is_cash method then prepare_cash id now r.ride_id else do
        raise_if (method_differs ride.payment_method method)
            (api_error 409 "PAYMENT_OPERATION_CONFLICT")
        raise_if (is_mobile_money method && not (known_network r.mobile_money_network))
            (api_error 422 "INVALID_PAYMENT_METHOD")
        raise_if (has_no_email r.customer_email r.customer_phone)
            (api_error 422 "PAYMENT_EMAIL_REQUIRED")
        prepare_diddipay id now r.ride_id method answer

  -- `prepare_payment`, once the ride is read
  unfoldable pub prepare_payment_of :
      (id now : ℕ) → PaymentRequest → IntentAnswer → Option Ride → Action Transaction
  prepare_payment_of id now r answer none = raise (api_error 404 "RIDE_NOT_FOUND")
  prepare_payment_of id now r answer (some ride) = do
    raise_if (not (ride.passenger_user_id == r.payer_user_id))
        (api_error 403 "RIDE_NOT_OWNED_BY_USER")
    raise_if (not (status_eq ride.status completed)) (api_error 409 "RIDE_NOT_COMPLETED")
    raise_if (has_no_fare ride.final_fare) (api_error 409 "PAYMENT_OPERATION_CONFLICT")
    prepare_with id now r ride answer (method_of r.method)

  -- `prepare_payment`
  unfoldable pub prepare_payment : (id now : ℕ) → PaymentRequest → IntentAnswer → Action Transaction
  prepare_payment id now r answer = do
    ride ← ask (find_ride r.ride_id)
    prepare_payment_of id now r answer ride

  -- `prepare_passenger_debt_payment`
  unfoldable pub prepare_debt_payment :
      (id now debt_id user_id : ℕ)
      → (email phone : Option String) → IntentAnswer
      → Action Transaction
  prepare_debt_payment id now debt_id user_id email phone answer = do
    d ← owned_open_debt debt_id user_id
    raise_if (is_empty (text_or email "") && is_empty (texts.digits (text_or phone "")))
        (api_error 422 "PAYMENT_EMAIL_REQUIRED")
    t ← prepare_diddipay id now d.ride_id PaymentMethod.mobile_money answer
    marked ← call (update_debt_status now d.id mobile_money_pending none)
    pure t
