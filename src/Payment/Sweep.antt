-- ===== src/Payment/Sweep.antt =====
-- The sweep that reads again at the provider what no callback told: `reconcile_pending`,
-- `reconcile_transaction` and `reconcile_topup` of app_base/modules/payment/application/services.py.
-- The provider's answers are functions of what it is asked about.
use Prim.Native.String.{◌++◌ as text_append}
use diddi_go_backend.Base.{
  ℕ, suc, Bool, true, false, not, ◌&&◌, ◌||◌, Option, none, some, List, [], ◌∷◌, ◌++◌, String,
  if◌then◌else◌, ◌==◌, leb, str_eq, take, or_else,
}
use diddi_go_backend.Base.Int.{eqb_ℤ}
use diddi_go_backend.Base.Sort.{sort_by}
use diddi_go_backend.Wallet.Entities.{
  Db, Transaction, DriverTopup, DriverWithdrawal, PaymentStatus, WithdrawalStatus,
}
use diddi_go_backend.Wallet.Session.{
  Result, ok, err, Action, api_error, pure, raise, ask, call, ◌>>=◌,
}
use diddi_go_backend.Wallet.Provider.{mark_withdrawal_provider_state}
use diddi_go_backend.Wallet.Service.{
  Externals, Payout, differs, int_of, payout_amount, require_id, status_text,
}
use diddi_go_backend.Payment.Transactions.{find_by_ride_id, list_stale_transactions, rows_where}
use diddi_go_backend.Payment.Topups.{find_topup_by_id, list_stale_topups}
use diddi_go_backend.Payment.Provider.{
  Intent, intent_mismatch, payment_status_from_diddipay, topup_status_from_payment_status,
  is_succeeded, topup_succeeded, same_status, same_topup_status, same_action,
}
use diddi_go_backend.Payment.Prepare.{Texts, text_or}
use diddi_go_backend.Payment.Settlement.{Fresh, apply_transaction_status, apply_topup_status}

-- `ReconciliationReport`
pub record Report : Type 0 where
  pub checked : ℕ
  pub updated : ℕ
  pub unchanged : ℕ
  pub missing : ℕ
  pub mismatched : ℕ
  pub errors : ℕ
  pub updated_references : List String

abbrev pub empty_report : Report
empty_report = record {
  checked = 0;
  updated = 0;
  unchanged = 0;
  missing = 0;
  mismatched = 0;
  errors = 0;
  updated_references = [];
}

abbrev pub count_checked : Report → Report
count_checked r = record r { checked = suc r.checked }

abbrev pub count_unchanged : Report → Report
count_unchanged r = record r { unchanged = suc r.unchanged }

abbrev pub count_missing : Report → Report
count_missing r = record r { missing = suc r.missing }

abbrev pub count_mismatched : Report → Report
count_mismatched r = record r { mismatched = suc r.mismatched }

abbrev pub count_error : Report → Report
count_error r = record r { errors = suc r.errors }

abbrev pub count_updated : String → Report → Report
count_updated reference r = record r {
  updated = suc r.updated;
  updated_references = r.updated_references ++ reference ∷ [];
}

-- What reading an intent, or a payout, at the provider comes to: an exception is `failed`.
pub data Reading (A : Type 0) : Type 0 where
  found : A → Reading A
  absent failed : Reading A

-- `list_stale_withdrawals`
abbrev pub is_stale_withdrawal : ℕ → DriverWithdrawal → Bool
is_stale_withdrawal before w =
    elim w.status [
      | WithdrawalStatus.reserved ↦ true
      | WithdrawalStatus.processing ↦ true
      | _ ↦ false
    ]
    && elim w.updated_at [ none ↦ false | some t ↦ leb t before ]

unfoldable pub list_stale_withdrawals : (updated_before limit : ℕ) → Db → List DriverWithdrawal
list_stale_withdrawals before limit db =
    take limit (
      sort_by (λ w. or_else w.updated_at 0)
        (rows_where (is_stale_withdrawal before) db.withdrawals))

-- `previous is updated.status`
abbrev pub withdrawal_place : WithdrawalStatus → ℕ
withdrawal_place WithdrawalStatus.reserved = 0
withdrawal_place WithdrawalStatus.processing = 1
withdrawal_place WithdrawalStatus.succeeded = 2
withdrawal_place WithdrawalStatus.failed = 3
withdrawal_place WithdrawalStatus.released = 4

-- The status that a payout's status asks for, if it is known.
abbrev pub payout_target : String → Option WithdrawalStatus
payout_target status =
    if str_eq status "succeeded"
    then some WithdrawalStatus.succeeded
    else if str_eq status "failed" || str_eq status "disputed"
    then some WithdrawalStatus.failed
    else if str_eq status "pending" || str_eq status "processing"
    then some WithdrawalStatus.processing
    else none

abbrev pub payout_mismatch : DriverWithdrawal → Payout → Bool
payout_mismatch w p =
    not (eqb_ℤ (payout_amount p.amount) (int_of w.net_amount))
    || differs p.currency (some w.currency)
    || differs p.business_reference w.business_reference

-- How a sweep asks the provider, and what it draws for a row.
pub record Sources : Type 0 where
  pub get_payment_intent : ℕ → Reading Intent
  pub get_payout : DriverWithdrawal → Reading Payout
  pub fresh : ℕ → Fresh

-- `_read_intent`
abbrev pub read_intent : (ℕ → Reading Intent) → Option ℕ → Reading Intent
read_intent get none = absent
read_intent get (some i) = get i

abbrev pub paid_at_if : Bool → ℕ → Option ℕ
paid_at_if succeeded now = if succeeded then some now else none

-- `for row in rows: …`
unfoldable pub for_each :
    {A : Type 0} → (A → Report → Action Report) → List A → Report → Action Report
for_each step [] report = pure report
for_each step (x ∷ xs) report = step x report >>= for_each step xs

module _ (ext : Externals) (texts : Texts) (src : Sources) (now : ℕ) where
  abbrev pub payment_reference : Transaction → String
  payment_reference t =
      text_or t.business_reference (text_append "diddigo:ride:" (ext.uuid_text t.ride_id))

  abbrev pub topup_reference : DriverTopup → String
  topup_reference t =
      text_or t.business_reference (text_append "diddigo:driver_topup:" (ext.uuid_text t.id))

  abbrev pub withdrawal_reference : DriverWithdrawal → String
  withdrawal_reference w = text_or w.business_reference (ext.uuid_text w.id)

  -- `_reconcile_transaction`, once the intent's status is known
  unfoldable pub update_transaction :
      Transaction → Intent → Report → Result PaymentStatus → Action Report
  update_transaction t i report (err e) = pure (count_error report)
  update_transaction t i report (ok status) =
      if same_status status t.status && same_action i.next_action t.provider_next_action
      then pure (count_unchanged report)
      else do
        t' ←
            apply_transaction_status (src.fresh t.id) now t status (status_text i.status)
              (paid_at_if (is_succeeded status) now) (some i.next_action)
        pure (count_updated (payment_reference t) report)

  unfoldable pub compare_transaction : Transaction → Report → Reading Intent → Action Report
  compare_transaction t report absent = pure (count_missing report)
  compare_transaction t report failed = pure (count_error report)
  compare_transaction t report (found i) =
      if intent_mismatch i t.amount t.currency t.business_reference
      then pure (count_mismatched report)
      else update_transaction t i report
          (payment_status_from_diddipay texts.normalize (status_text i.status))

  -- `_reconcile_transaction`
  unfoldable pub reconcile_transaction_row : Transaction → Report → Action Report
  reconcile_transaction_row t report =
      compare_transaction t (count_checked report)
        (read_intent src.get_payment_intent t.payment_intent_id)

  -- `_reconcile_topup`, once the intent's status is known
  unfoldable pub update_topup : DriverTopup → Intent → Report → Result PaymentStatus → Action Report
  update_topup t i report (err e) = pure (count_error report)
  update_topup t i report (ok status) =
      let target = topup_status_from_payment_status status in
      if same_topup_status target t.status && same_action i.next_action t.provider_next_action
      then pure (count_unchanged report)
      else do
        t' ←
            apply_topup_status (src.fresh t.id) now t target (status_text i.status)
              (paid_at_if (topup_succeeded target) now) (some i.next_action)
        pure (count_updated (topup_reference t) report)

  unfoldable pub compare_topup : DriverTopup → Report → Reading Intent → Action Report
  compare_topup t report absent = pure (count_missing report)
  compare_topup t report failed = pure (count_error report)
  compare_topup t report (found i) =
      if intent_mismatch i t.amount t.currency t.business_reference
      then pure (count_mismatched report)
      else update_topup t i report
          (payment_status_from_diddipay texts.normalize (status_text i.status))

  -- `_reconcile_topup`
  unfoldable pub reconcile_topup_row : DriverTopup → Report → Action Report
  reconcile_topup_row t report =
      compare_topup t (count_checked report)
        (read_intent src.get_payment_intent t.payment_intent_id)

  -- `_reconcile_withdrawal`, once the payout's status is known
  unfoldable pub update_withdrawal :
      DriverWithdrawal → Payout → Report → Option WithdrawalStatus → Action Report
  update_withdrawal w p report none = pure (count_error report)
  update_withdrawal w p report (some target) = do
    payout_id ← require_id p.id
    w' ← call (
        mark_withdrawal_provider_state (src.fresh w.id).entry_id now w.id (record {
          status = target;
          payout_id = some payout_id;
          provider_status = some (status_text p.status);
          failure_code = p.failure_code;
          failure_message = p.failure_message;
        }))
    pure (
        if withdrawal_place w'.status == withdrawal_place w.status
        then count_unchanged report
        else count_updated (withdrawal_reference w) report)

  unfoldable pub compare_withdrawal : DriverWithdrawal → Report → Reading Payout → Action Report
  compare_withdrawal w report absent = pure (count_missing report)
  compare_withdrawal w report failed = pure (count_error report)
  compare_withdrawal w report (found p) =
      if payout_mismatch w p
      then pure (count_mismatched report)
      else update_withdrawal w p report (payout_target (status_text p.status))

  -- `_reconcile_withdrawal`
  unfoldable pub reconcile_withdrawal_row : DriverWithdrawal → Report → Action Report
  reconcile_withdrawal_row w report = compare_withdrawal w (count_checked report) (src.get_payout w)

  -- `reconcile_pending`
  unfoldable pub reconcile_pending : (limit created_before created_after : ℕ) → Action Report
  reconcile_pending limit before after = do
    transactions ← ask (list_stale_transactions before after limit)
    r1 ← for_each reconcile_transaction_row transactions empty_report
    topups ← ask (list_stale_topups before after limit)
    r2 ← for_each reconcile_topup_row topups r1
    withdrawals ← ask (list_stale_withdrawals before limit)
    for_each reconcile_withdrawal_row withdrawals r2

  -- `reconcile_transaction`, once the payment of the ride is read
  unfoldable pub reconcile_payment : Option Transaction → Action Report
  reconcile_payment none = raise (api_error 404 "PAYMENT_INTENT_NOT_FOUND")
  reconcile_payment (some t) = elim t.payment_intent_id [
    | none ↦ raise (api_error 404 "PAYMENT_INTENT_NOT_FOUND")
    | some i ↦ reconcile_transaction_row t empty_report
  ]

  -- `reconcile_transaction`
  unfoldable pub reconcile_transaction : ℕ → Action Report
  reconcile_transaction ride_id = call (find_by_ride_id ride_id) >>= reconcile_payment

  unfoldable pub reconcile_recharge : Option DriverTopup → Action Report
  reconcile_recharge none = raise (api_error 404 "PAYMENT_INTENT_NOT_FOUND")
  reconcile_recharge (some t) = elim t.payment_intent_id [
    | none ↦ raise (api_error 404 "PAYMENT_INTENT_NOT_FOUND")
    | some i ↦ reconcile_topup_row t empty_report
  ]

  -- `reconcile_topup`
  unfoldable pub reconcile_topup : ℕ → Action Report
  reconcile_topup topup_id = ask (find_topup_by_id topup_id) >>= reconcile_recharge
