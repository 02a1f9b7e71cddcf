-- ===== src/Wallet/Service/Payouts.antt =====
-- The settings, the amounts and the provider's answers of a withdrawal, and what an answer does
-- (`apply_withdrawal_provider_payload` of app_base/modules/payment/application/wallet_service.py).
use diddi_go_backend.Base.{
  ℕ, ◌*◌, ◌/◌, ◌%◌, Bool, false, not, ◌&&◌, ◌||◌, Option, none, some, [], ◌∷◌, ◌++◌, String,
  if◌then◌else◌, ◌==◌, str_eq, find, any, or_else,
}
use diddi_go_backend.Base.Int.{ℤ, pos, negsuc, pos_part, neg_part, eqb_ℤ, sub_ℕ}
use diddi_go_backend.Wallet.Entities.{DriverWithdrawal, DriverWithdrawalQuote, WithdrawalStatus}
use diddi_go_backend.Wallet.Session.{
  api_error, integrity_error, key_error, Result, ok, err, Query, Action, pure, raise, call, lift,
  ◌>>=◌, ◌>>◌, raise_if,
}
use diddi_go_backend.Wallet.Withdrawals.{has_quote_id, same_text}
use diddi_go_backend.Wallet.Provider.{mark_withdrawal_provider_state}

-- The settings that the use cases read, in francs and seconds.
pub record Settings : Type 0 where
  pub driver_withdrawal_min_amount_xof : ℕ
  pub driver_withdrawal_fee_xof : ℕ
  pub driver_withdrawal_quote_ttl_seconds : ℕ
  pub driver_withdrawal_otp_max_attempts : ℕ

-- `sha256(code.encode()).hexdigest()`, `str.strip` and `str(UUID)`.
pub record Externals : Type 0 where
  pub sha256_hex : String → String
  pub strip : String → String
  pub uuid_text : ℕ → String

-- Hundredths of a franc, and microseconds.
abbrev pub francs : ℕ → ℤ
francs n = pos (n * 100)

abbrev pub seconds : ℕ → ℕ
seconds n = n * 1000000

-- `int(amount)`: the whole francs, rounded towards zero.
abbrev pub int_of : ℤ → ℤ
int_of a = sub_ℕ (pos_part a / 100) (neg_part a / 100)

-- `amount == amount.to_integral_value()`
abbrev pub is_integral : ℤ → Bool
is_integral a = pos_part a % 100 == 0 && neg_part a % 100 == 0

abbrev pub is_empty : String → Bool
is_empty s = str_eq s ""

-- `_driver_id_for_user`
unfoldable pub driver_id_for_user : ℕ → Action ℕ
driver_id_for_user user_id s = elim (find (λ d. d.user_id == user_id) s.current.drivers) [
  | none ↦ (err (api_error 404 "DRIVER_PROFILE_NOT_FOUND"), s)
  | some d ↦ (ok d.id, s)
]

-- `save_withdrawal_quote`
unfoldable pub save_withdrawal_quote : DriverWithdrawalQuote → Query DriverWithdrawalQuote
save_withdrawal_quote q db =
    if any (has_quote_id q.id) db.quotes
    then (err integrity_error, db)
    else (ok q, record db { quotes = db.quotes ++ q ∷ [] })

-- What `create_payout` and `get_payout` answer, as far as the code reads it.
pub record Payout : Type 0 where
  pub id : Option ℕ
  pub amount : Option ℤ
  pub currency : Option String
  pub business_reference : Option String
  pub status : Option String
  pub failure_code : Option String
  pub failure_message : Option String

-- A payout, or an `ApiError` of the client.
pub data Answer : Type 0 where
  payout : Payout → Answer
  client_error : (status_code : ℕ) → (code message : String) → Answer

-- `int(payout.get("amount") or -1)`
abbrev pub payout_amount : Option ℤ → ℤ
payout_amount none = negsuc 0
payout_amount (some a) = if eqb_ℤ a (pos 0) then negsuc 0 else a

-- `payout.get("status") or ""`
abbrev pub status_text : Option String → String
status_text s = or_else s ""

-- `_withdrawal_status_from_diddipay`
unfoldable pub withdrawal_status_from_diddipay : String → Result WithdrawalStatus
withdrawal_status_from_diddipay status =
    if str_eq status "succeeded"
    then ok WithdrawalStatus.succeeded
    else if str_eq status "failed" || str_eq status "disputed"
    then ok WithdrawalStatus.failed
    else if str_eq status "pending" || str_eq status "processing"
    then ok WithdrawalStatus.processing
    else err (api_error 422 "WITHDRAWAL_STATUS_INVALID")

-- `UUID(str(payout["id"]))`
unfoldable pub require_id : Option ℕ → Action ℕ
require_id none = raise key_error
require_id (some i) = pure i

-- `a != b` on texts that may be missing
abbrev pub differs : Option String → Option String → Bool
differs none none = false
differs a b = not (same_text a b)

-- `apply_withdrawal_provider_payload`
unfoldable pub apply_withdrawal_provider_payload :
    (entry_id now : ℕ) → DriverWithdrawal → Payout → Action DriverWithdrawal
unfolding withdrawal_status_from_diddipay
apply_withdrawal_provider_payload entry_id now w p = do
  raise_if (not (eqb_ℤ (payout_amount p.amount) (int_of w.net_amount)))
      (api_error 409 "WITHDRAWAL_AMOUNT_MISMATCH")
  raise_if (differs p.currency (some w.currency)) (api_error 409 "WITHDRAWAL_CURRENCY_MISMATCH")
  raise_if (differs p.business_reference w.business_reference)
      (api_error 409 "WITHDRAWAL_REFERENCE_MISMATCH")
  status ← lift (withdrawal_status_from_diddipay (status_text p.status))
  payout_id ← require_id p.id
  call (
      mark_withdrawal_provider_state entry_id now w.id (record {
        status = status;
        payout_id = some payout_id;
        provider_status = some (status_text p.status);
        failure_code = p.failure_code;
        failure_message = p.failure_message;
      }))
