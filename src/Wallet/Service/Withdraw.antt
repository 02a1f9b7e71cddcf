-- ===== src/Wallet/Service/Withdraw.antt =====
-- `quote_withdrawal` and `request_withdrawal` of
-- app_base/modules/payment/application/wallet_service.py.
use Prim.Native.String.{◌++◌ as text_append}
use diddi_go_backend.Base.{
  ℕ, ◌+◌, not, ◌||◌, Option, none, some, String, if◌then◌else◌, ◌==◌, ltb, str_eq,
}
use diddi_go_backend.Base.Int.{ℤ, pos, ◌-ℤ◌, ltb_ℤ, leb_ℤ}
use diddi_go_backend.Wallet.Entities.{DriverWithdrawal, DriverWithdrawalQuote, WithdrawalStatus}
use diddi_go_backend.Wallet.Session.{
  Error, lookup_error, api_error, Action, pure, raise, call, commit, rethrow, ask, ◌>>=◌, ◌>>◌,
  raise_if,
}
use diddi_go_backend.Wallet.Ledger.{get_or_create_wallet}
use diddi_go_backend.Wallet.Verification.{consume_withdrawal_verification}
use diddi_go_backend.Wallet.Withdrawals.{find_withdrawal_by_quote_id, same_id}
use diddi_go_backend.Wallet.Reserve.{reserve_withdrawal_from_quote}
use diddi_go_backend.Wallet.Provider.{mark_withdrawal_provider_state}
use diddi_go_backend.Wallet.Service.Payouts.{
  Settings, Externals, francs, seconds, is_integral, is_empty, driver_id_for_user,
  save_withdrawal_quote, Answer, apply_withdrawal_provider_payload, payout, client_error,
}

-- The status of the `ApiError` that stands for a `LookupError` of the code's check.
abbrev pub verification_status : String → ℕ
verification_status code =
    if str_eq code "WITHDRAWAL_VERIFICATION_NOT_FOUND"
    then 404
    else if str_eq code "WITHDRAWAL_VERIFICATION_USED"
    then 409
    else if str_eq code "WITHDRAWAL_VERIFICATION_EXPIRED"
    then 410
    else if str_eq code "WITHDRAWAL_VERIFICATION_LOCKED"
    then 429
    else 400

abbrev pub verification_error : Error → Error
verification_error (lookup_error code) = api_error (verification_status code) code
verification_error e = e

-- The same of the reservation.
abbrev pub reservation_status : String → ℕ
reservation_status code =
    if str_eq code "WITHDRAWAL_QUOTE_NOT_FOUND"
    then 404
    else if str_eq code "WITHDRAWAL_QUOTE_ALREADY_USED"
        || str_eq code "WITHDRAWAL_BALANCE_INSUFFICIENT"
    then 409
    else 422

abbrev pub reservation_error : Error → Error
reservation_error (lookup_error code) = api_error (reservation_status code) code
reservation_error e = e

-- The arguments of `request_withdrawal`.
pub record WithdrawalRequest : Type 0 where
  pub driver_user_id : ℕ
  pub quote_id : ℕ
  pub beneficiary_reference : String
  pub beneficiary_destination : ℕ
  pub verification_id : ℕ
  pub verification_code : String
  pub profile_phone : String

-- The identifiers that a request draws, and its two moments.
pub record Draws : Type 0 where
  pub withdrawal_id : ℕ
  pub wallet_id : ℕ
  pub reserve_entry_id : ℕ
  pub settle_entry_id : ℕ
  pub now : ℕ
  pub later : ℕ

-- `exc.status_code < 500`: the provider refused the payout, and the amount goes back.
unfoldable pub reject_payout :
    Draws → DriverWithdrawal → (code message : String) → Action (Unit {0})
reject_payout d w code message = do
  w' ← call (
      mark_withdrawal_provider_state d.settle_entry_id d.later w.id (record {
        status = WithdrawalStatus.failed;
        payout_id = none;
        provider_status = some "rejected";
        failure_code = some code;
        failure_message = some message;
      }))
  commit

-- What follows the call of the provider.
unfoldable pub conclude : Draws → DriverWithdrawal → Answer → Action DriverWithdrawal
unfolding reject_payout
conclude d w (payout p) = do
  w' ← apply_withdrawal_provider_payload d.settle_entry_id d.later w p
  commit
  pure w'
conclude d w (client_error status_code code message) = do
  (if ltb status_code 500 then reject_payout d w code message else pure tt)
  raise (api_error status_code code)

-- The answer to a request whose quote already has a withdrawal.
unfoldable pub answer_existing : ℕ → WithdrawalRequest → DriverWithdrawal → Action DriverWithdrawal
answer_existing driver_id r w =
    if not (w.driver_id == driver_id)
      || not (same_id w.beneficiary_destination (some r.beneficiary_destination))
    then raise (api_error 409 "WITHDRAWAL_QUOTE_ALREADY_USED")
    else pure w

module _ (cfg : Settings) (ext : Externals) where
  -- `quote_withdrawal`
  unfoldable pub quote_withdrawal :
      (quote_id wallet_id now driver_user_id : ℕ) → ℤ → Action DriverWithdrawalQuote
  quote_withdrawal quote_id wallet_id now driver_user_id amount = do
    driver_id ← driver_id_for_user driver_user_id
    let fees = francs cfg.driver_withdrawal_fee_xof
    raise_if
        (not (is_integral amount) || ltb_ℤ amount (francs cfg.driver_withdrawal_min_amount_xof))
        (api_error 422 "INVALID_WITHDRAWAL_AMOUNT")
    raise_if (leb_ℤ amount fees) (api_error 422 "INVALID_WITHDRAWAL_AMOUNT")
    wallet ← call (get_or_create_wallet wallet_id now driver_id "XOF")
    raise_if (ltb_ℤ wallet.balance amount) (api_error 409 "WITHDRAWAL_BALANCE_INSUFFICIENT")
    q ← call (
        save_withdrawal_quote (record {
          id = quote_id;
          driver_id = driver_id;
          amount = amount;
          fees = fees;
          net_amount = amount -ℤ fees;
          currency = "XOF";
          expires_at = now + seconds cfg.driver_withdrawal_quote_ttl_seconds;
          consumed_at = none;
          created_at = some now;
        }))
    commit
    pure q

  -- The withdrawal that a request hands to the reservation, its amounts not yet known.
  unfoldable pub draft : Draws → WithdrawalRequest → ℕ → DriverWithdrawal
  draft d r driver_id = record {
    id = d.withdrawal_id;
    driver_id = driver_id;
    quote_id = r.quote_id;
    amount = pos 0;
    fees = pos 0;
    net_amount = pos 0;
    beneficiary_reference = ext.strip r.beneficiary_reference;
    beneficiary_destination = some r.beneficiary_destination;
    status = WithdrawalStatus.reserved;
    currency = "XOF";
    payout_id = none;
    business_reference =
        some (text_append "diddigo:driver_withdrawal:" (ext.uuid_text d.withdrawal_id));
    idempotency_key = some (
        text_append (text_append "diddigo:driver_withdrawal:" (ext.uuid_text d.withdrawal_id))
          ":v1");
    provider_status = none;
    failure_code = none;
    failure_message = none;
    created_at = some d.now;
    reserved_at = some d.now;
    succeeded_at = none;
    released_at = none;
    updated_at = some d.now;
  }

  -- The check of the code and the reservation, up to the commit that keeps them.
  unfoldable pub confirm_and_reserve : Draws → WithdrawalRequest → ℕ → Action DriverWithdrawal
  confirm_and_reserve d r driver_id = do
    v ←
        rethrow
          (call (
            consume_withdrawal_verification r.verification_id driver_id r.beneficiary_destination
              (ext.sha256_hex r.verification_code) cfg.driver_withdrawal_otp_max_attempts d.now))
          verification_error
    w ←
        rethrow
          (call (
            reserve_withdrawal_from_quote d.wallet_id d.reserve_entry_id d.now
              (draft d r driver_id)))
          reservation_error
    commit
    pure w

  -- `request_withdrawal` once it knows the withdrawal of the quote, if any.
  unfoldable pub answer_or_create :
      Draws
      → WithdrawalRequest
      → (DriverWithdrawal → Answer)
      → ℕ
      → Option DriverWithdrawal
      → Action DriverWithdrawal
  answer_or_create d r provider driver_id (some w) = answer_existing driver_id r w
  answer_or_create d r provider driver_id none = do
    w ← confirm_and_reserve d r driver_id
    conclude d w (provider w)

  -- `request_withdrawal`. The provider's answer depends on the withdrawal that it is asked for.
  unfoldable pub request_withdrawal :
      Draws → WithdrawalRequest → (DriverWithdrawal → Answer) → Action DriverWithdrawal
  request_withdrawal d r provider = do
    driver_id ← driver_id_for_user r.driver_user_id
    raise_if (is_empty (ext.strip r.beneficiary_reference))
        (api_error 422 "WITHDRAWAL_BENEFICIARY_REQUIRED")
    raise_if (is_empty r.profile_phone) (api_error 409 "WITHDRAWAL_PROFILE_PHONE_REQUIRED")
    existing ← ask (find_withdrawal_by_quote_id r.quote_id)
    answer_or_create d r provider driver_id existing
