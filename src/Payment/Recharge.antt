-- ===== src/Payment/Recharge.antt =====
-- A driver's top-up and the code for a withdrawal: `create_topup` and
-- `request_withdrawal_verification` of app_base/modules/payment/application/wallet_service.py.
-- The provider's answer and the outcome of the text message are arguments; the return context of
-- a payment page is left out.
use Prim.Native.String.{◌++◌ as text_append}
use diddi_go_backend.Base.{
  ℕ, ◌+◌, Bool, true, false, not, ◌&&◌, Option, none, some, [], ◌∷◌, ◌++◌, String, if◌then◌else◌,
  ◌==◌, ltb, any, is_some, or_else,
}
use diddi_go_backend.Base.Int.{ℤ, pos, leb_ℤ}
use diddi_go_backend.Base.Sort.{reverse_sort_by}
use diddi_go_backend.Wallet.Entities.{
  Db, DriverTopup, DriverWithdrawalVerification, PaymentMethod, TopupStatus,
}
use diddi_go_backend.Wallet.Session.{
  Action, Query, ok, err, integrity_error, api_error, pure, raise, raise_if, lift, ask, call,
  commit, ◌>>=◌, ◌>>◌,
}
use diddi_go_backend.Wallet.Verification.{has_verification_id}
use diddi_go_backend.Wallet.Service.{
  Externals, driver_id_for_user, is_empty, require_id, seconds, status_text,
}
use diddi_go_backend.Payment.Transactions.{rows_where}
use diddi_go_backend.Payment.Debts.{head}
use diddi_go_backend.Payment.Topups.{save_topup}
use diddi_go_backend.Payment.Provider.{
  Intent, topup_intent_status, topup_status_from_payment_status, topup_succeeded,
}
use diddi_go_backend.Payment.Cash.{is_cash}
use diddi_go_backend.Payment.Prepare.{IntentAnswer, answered, text_or, intent_amount, method_of}
use diddi_go_backend.Payment.Settlement.{Fresh, credit_topup}

-- The values of `TopupStatus`.
abbrev pub topup_status_value : TopupStatus → String
topup_status_value TopupStatus.pending = "pending"
topup_status_value TopupStatus.requires_action = "requires_action"
topup_status_value TopupStatus.processing = "processing"
topup_status_value TopupStatus.succeeded = "succeeded"
topup_status_value TopupStatus.failed = "failed"
topup_status_value TopupStatus.cancelled = "cancelled"

-- `save_withdrawal_verification`
unfoldable pub save_withdrawal_verification :
    ℕ → DriverWithdrawalVerification → Query DriverWithdrawalVerification
save_withdrawal_verification now v db =
    if any (has_verification_id v.id) db.verifications then (err integrity_error, db) else (
      ok v,
      record db {
        verifications =
            db.verifications ++ record v { created_at = some (or_else v.created_at now) } ∷ [];
      },
    )

-- `find_latest_withdrawal_verification`
unfoldable pub find_latest_withdrawal_verification : ℕ → Db → Option DriverWithdrawalVerification
find_latest_withdrawal_verification driver_id db = head (
    reverse_sort_by (λ v. or_else v.created_at 0)
      (rows_where (λ v. v.driver_id == driver_id) db.verifications))

-- The last code is still good and was sent less than `retry` ago.
abbrev pub sent_lately : (retry now : ℕ) → Option DriverWithdrawalVerification → Bool
sent_lately retry now none = false
sent_lately retry now (some v) =
    not (is_some v.consumed_at)
    && ltb now v.expires_at
    && elim v.created_at [ none ↦ false | some t ↦ ltb now (t + retry) ]

-- What a request for a code draws and reads from the settings: `code` is what `randbelow` gives,
-- as six digits; `sms` is none where no gateway is configured, and tells whether it delivers.
pub record CodeDraws : Type 0 where
  pub verification_id : ℕ
  pub code : String
  pub now : ℕ
  pub retry_seconds : ℕ
  pub ttl_seconds : ℕ
  pub sms : Option Bool

abbrev pub not_delivered : Option Bool → Bool
not_delivered none = true
not_delivered (some delivered) = not delivered

module _ (ext : Externals) where
  abbrev pub recharge_reference : ℕ → String
  recharge_reference i = text_append "diddigo:driver_topup:" (ext.uuid_text i)

  -- The row of a top-up, as the provider's answer has it.
  abbrev pub new_topup :
      (id now driver_id : ℕ) → ℤ → PaymentMethod → Intent → TopupStatus → ℕ → DriverTopup
  new_topup id now driver_id amount method i status intent_id = record {
    id = id;
    driver_id = driver_id;
    amount = intent_amount i.amount amount;
    currency = text_or i.currency "XOF";
    method = method;
    status = status;
    payment_intent_id = some intent_id;
    business_reference = some (recharge_reference id);
    idempotency_key = some (text_append (recharge_reference id) ":v1");
    provider_status = some (text_or i.status (topup_status_value status));
    provider_next_action = i.next_action;
    created_at = some now;
    paid_at = if topup_succeeded status then some now else none;
  }

  -- What follows the provider's answer.
  unfoldable pub keep_topup :
      Fresh → (id now driver_id : ℕ) → ℤ → PaymentMethod → Intent → Action DriverTopup
  keep_topup fresh id now driver_id amount method i = do
    status ← lift (topup_intent_status (status_text i.status))
    intent_id ← require_id i.id
    saved ← call (
        save_topup now (
          new_topup id now driver_id amount method i (topup_status_from_payment_status status)
            intent_id))
    credit_topup fresh now saved
    pure saved

  unfoldable pub topup_with :
      Fresh
      → (id now driver_id : ℕ) → ℤ
      → String
      → IntentAnswer
      → Option PaymentMethod
      → Action DriverTopup
  topup_with fresh id now driver_id amount email answer none =
      raise (api_error 422 "INVALID_PAYMENT_METHOD")
  topup_with fresh id now driver_id amount email answer (some method) = do
    raise_if (is_cash method) (api_error 422 "INVALID_PAYMENT_METHOD")
    raise_if (is_empty email) (api_error 422 "PAYMENT_EMAIL_REQUIRED")
    i ← answered answer
    keep_topup fresh id now driver_id amount method i

  -- `create_topup`
  unfoldable pub create_topup :
      Fresh
      → (id now driver_user_id : ℕ) → ℤ
      → (method email : String) → IntentAnswer
      → Action DriverTopup
  create_topup fresh id now user amount method email answer = do
    driver_id ← driver_id_for_user user
    raise_if (leb_ℤ amount (pos 0)) (api_error 422 "INVALID_TOPUP_AMOUNT")
    topup_with fresh id now driver_id amount email answer (method_of method)

  abbrev pub new_verification :
      CodeDraws → (driver_id destination : ℕ) → String → DriverWithdrawalVerification
  new_verification d driver_id destination phone = record {
    id = d.verification_id;
    driver_id = driver_id;
    beneficiary_destination = destination;
    recipient_phone = phone;
    code_hash = ext.sha256_hex d.code;
    expires_at = d.now + seconds d.ttl_seconds;
    attempt_count = 0;
    consumed_at = none;
    created_at = some d.now;
  }

  -- `request_withdrawal_verification`
  unfoldable pub request_withdrawal_verification :
      CodeDraws → (driver_user_id destination : ℕ) → String → Action DriverWithdrawalVerification
  request_withdrawal_verification d user destination profile_phone = do
    driver_id ← driver_id_for_user user
    raise_if (is_empty (ext.strip profile_phone))
        (api_error 409 "WITHDRAWAL_PROFILE_PHONE_REQUIRED")
    latest ← ask (find_latest_withdrawal_verification driver_id)
    raise_if (sent_lately (seconds d.retry_seconds) d.now latest)
        (api_error 429 "WITHDRAWAL_VERIFICATION_RATE_LIMITED")
    raise_if (not (is_some d.sms)) (api_error 503 "SMS_NOT_CONFIGURED")
    v ← call (
        save_withdrawal_verification d.now
          (new_verification d driver_id destination (ext.strip profile_phone)))
    commit
    raise_if (not_delivered d.sms) (api_error 503 "WITHDRAWAL_VERIFICATION_DELIVERY_FAILED")
    pure v
