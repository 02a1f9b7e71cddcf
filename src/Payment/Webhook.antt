-- ===== src/Payment/Webhook.antt =====
-- The provider's callbacks: `apply_diddipay_webhook` of
-- app_base/modules/payment/application/services.py. The signature is computed and the body is
-- read by Python's libraries: both are parameters.
use diddi_go_backend.Base.{
  ℕ, Bool, true, not, ◌||◌, Option, none, some, String, if◌then◌else◌, str_eq, find,
}
use diddi_go_backend.Base.Int.{ℤ, eqb_ℤ}
use diddi_go_backend.Wallet.Entities.{
  Db, DriverTopup, DriverWithdrawal, Transaction, PaymentStatus, WebhookEvent,
}
use diddi_go_backend.Wallet.Session.{
  Action, Result, ok, err, api_error, value_error, pure, raise, raise_if, lift, ask, call, ◌>>=◌,
  ◌>>◌,
}
use diddi_go_backend.Wallet.Withdrawals.{same_text, same_id}
use diddi_go_backend.Wallet.Provider.{mark_withdrawal_provider_state}
use diddi_go_backend.Wallet.Service.{
  differs, int_of, is_empty, payout_amount, status_text, withdrawal_status_from_diddipay,
}
use diddi_go_backend.Wallet.Callbacks.{record_webhook_event}
use diddi_go_backend.Payment.Transactions.{find_by_payment_intent_id}
use diddi_go_backend.Payment.Topups.{find_topup_by_payment_intent_id}
use diddi_go_backend.Payment.Provider.{
  payment_status_from_diddipay, topup_status_from_payment_status, is_succeeded,
}
use diddi_go_backend.Payment.Settlement.{Fresh, apply_transaction_status, apply_topup_status}

-- What `data.get` finds under a name: nothing or an empty value, a value that `UUID` or `int`
-- refuses, or one that it reads.
pub data Field (A : Type 0) : Type 0 where
  empty_field unreadable : Field A
  readable : A → Field A

-- `UUID(str(data[…])) if data.get(…) else None`, and what `int` reads of the amount
unfoldable pub read_field : {A : Type 0} → Field A → Result (Option A)
read_field empty_field = ok none
read_field unreadable = err value_error
read_field (readable a) = ok (some a)

-- `payload["data"]`
pub record CallbackData : Type 0 where
  pub payment_intent_id : Field ℕ
  pub payout_id : Field ℕ
  pub amount : Field ℤ
  pub currency : Option String
  pub business_reference : Option String
  pub status : Option String
  pub failure_code : Option String
  pub failure_message : Option String

-- The body, as far as the code reads it; `content` is none where `data` is no object.
pub record Callback : Type 0 where
  pub id : String
  pub event_type : String
  pub content : Option CallbackData

-- The request: its headers and its body.
pub record Delivery : Type 0 where
  pub raw_body : String
  pub event_id_header : Option String
  pub signature : Option String

-- `hmac.new(secret, body, sha256).hexdigest()` with the configured secret, `json.loads` (none for
-- a `JSONDecodeError`), and `strip().lower()`.
pub record CallbackSettings : Type 0 where
  pub secret_configured : Bool
  pub hmac_hex : String → String
  pub json_loads : String → Option Callback
  pub normalize : String → String

pub data Processed : Type 0 where
  duplicate processed : Processed

-- `find_withdrawal_by_payout_id`, `find_withdrawal_by_business_reference`
abbrev pub find_by_payout : ℕ → Db → Option DriverWithdrawal
find_by_payout payout_id db = find (λ w. same_id w.payout_id (some payout_id)) db.withdrawals

abbrev pub find_by_reference : Option String → Db → Option DriverWithdrawal
find_by_reference none db = none
find_by_reference (some r) db =
    if is_empty r then none else find (λ w. same_text w.business_reference (some r)) db.withdrawals

abbrev pub first_of : {A : Type 0} → Option A → Option A → Option A
first_of none b = b
first_of (some a) b = some a

-- The amount that was read and `data.get("currency")` against a row.
abbrev pub money_differs : Option ℤ → CallbackData → ℤ → String → Bool
money_differs read d amount currency =
    not (eqb_ℤ (payout_amount read) (int_of amount)) || differs d.currency (some currency)

abbrev pub paid_moment : ℕ → PaymentStatus → Option ℕ
paid_moment now status = if is_succeeded status then some now else none

-- A callback about a withdrawal's payout.
unfoldable pub apply_payout :
    (entry_id now payout_id : ℕ) → CallbackData → Option DriverWithdrawal → Action Processed
apply_payout entry_id now payout_id d none = raise (api_error 404 "WITHDRAWAL_NOT_FOUND")
apply_payout entry_id now payout_id d (some w) = do
  raise_if (differs d.business_reference w.business_reference)
      (api_error 409 "WITHDRAWAL_REFERENCE_MISMATCH")
  target ← lift (withdrawal_status_from_diddipay (status_text d.status))
  updated ← call (
      mark_withdrawal_provider_state entry_id now w.id (record {
        status = target;
        payout_id = some payout_id;
        provider_status = some (status_text d.status);
        failure_code = d.failure_code;
        failure_message = d.failure_message;
      }))
  pure processed

-- A callback about a driver's top-up.
unfoldable pub apply_to_topup :
    Fresh → ℕ → CallbackData → PaymentStatus → Option DriverTopup → Action Processed
apply_to_topup fresh now d status none = raise (api_error 404 "PAYMENT_INTENT_NOT_FOUND")
apply_to_topup fresh now d status (some t) = do
  amount ← lift (read_field d.amount)
  raise_if (money_differs amount d t.amount t.currency) (api_error 409 "PAYMENT_OPERATION_CONFLICT")
  raise_if (differs d.business_reference t.business_reference)
      (api_error 409 "PAYMENT_OPERATION_CONFLICT")
  t' ←
      apply_topup_status fresh now t (topup_status_from_payment_status status)
        (status_text d.status) (paid_moment now status) none
  pure processed

-- A callback about a payment intent: of a ride, or else of a top-up.
unfoldable pub apply_intent :
    Fresh
    → (now intent_id : ℕ) → CallbackData
    → PaymentStatus
    → Option Transaction
    → Action Processed
apply_intent fresh now intent_id d status (some payment) = do
  amount ← lift (read_field d.amount)
  raise_if (money_differs amount d payment.amount payment.currency)
      (api_error 409 "PAYMENT_OPERATION_CONFLICT")
  raise_if (differs d.business_reference payment.business_reference)
      (api_error 409 "PAYMENT_OPERATION_CONFLICT")
  payment' ←
      apply_transaction_status fresh now payment status (status_text d.status)
        (paid_moment now status) none
  pure processed
apply_intent fresh now intent_id d status none = do
  found ← ask (find_topup_by_payment_intent_id intent_id)
  apply_to_topup fresh now d status found

module _ (cs : CallbackSettings) where
  -- What follows the recording of an event that is new.
  unfoldable pub apply_event :
      Fresh → ℕ → CallbackData → (payout_id payment_intent_id : Option ℕ) → Action Processed
  apply_event fresh now d (some payout_id) intent_id = do
    found ←
        ask
          (λ db. first_of (find_by_payout payout_id db) (find_by_reference d.business_reference db))
    apply_payout fresh.entry_id now payout_id d found
  apply_event fresh now d none none = raise (api_error 422 "PAYMENT_CALLBACK_INVALID")
  apply_event fresh now d none (some intent_id) = do
    status ← lift (payment_status_from_diddipay cs.normalize (status_text d.status))
    payment ← ask (find_by_payment_intent_id intent_id)
    apply_intent fresh now intent_id d status payment

  -- the same once the payout is read
  unfoldable pub apply_new : Fresh → ℕ → CallbackData → Option ℕ → Action Processed
  apply_new fresh now d intent_id = do
    payout_id ← lift (read_field d.payout_id)
    apply_event fresh now d payout_id intent_id

  unfoldable pub apply_once : Fresh → ℕ → CallbackData → Option ℕ → Bool → Action Processed
  apply_once fresh now d intent_id stored =
      if stored then apply_new fresh now d intent_id else pure duplicate

  abbrev pub event_of : Callback → CallbackData → Option ℕ → WebhookEvent
  event_of c d intent_id = record {
    id = c.id;
    payment_intent_id = intent_id;
    event_type = c.event_type;
    business_reference = d.business_reference;
  }

  unfoldable pub apply_content : Fresh → ℕ → Callback → Option CallbackData → Action Processed
  apply_content fresh now c none = raise (api_error 422 "PAYMENT_CALLBACK_INVALID")
  apply_content fresh now c (some d) = do
    intent_id ← lift (read_field d.payment_intent_id)
    stored ← call (record_webhook_event (event_of c d intent_id))
    apply_once fresh now d intent_id stored

  unfoldable pub apply_callback : Fresh → ℕ → Option String → Option Callback → Action Processed
  apply_callback fresh now header none = raise (api_error 422 "PAYMENT_CALLBACK_INVALID")
  apply_callback fresh now header (some c) = do
    raise_if (is_empty c.id || differs header (some c.id))
        (api_error 422 "PAYMENT_CALLBACK_INVALID")
    apply_content fresh now c c.content

  -- `not signature or not hmac.compare_digest(signature, expected)`
  abbrev pub signature_fails : Option String → String → Bool
  signature_fails none expected = true
  signature_fails (some s) expected = is_empty s || not (str_eq s expected)

  -- `apply_diddipay_webhook`
  unfoldable pub apply_diddipay_webhook : Fresh → ℕ → Delivery → Action Processed
  apply_diddipay_webhook fresh now r = do
    raise_if (not cs.secret_configured) (api_error 503 "PAYMENT_CONFIGURATION_MISSING")
    raise_if (signature_fails r.signature (cs.hmac_hex r.raw_body))
        (api_error 401 "PAYMENT_CALLBACK_INVALID")
    apply_callback fresh now r.event_id_header (cs.json_loads r.raw_body)
